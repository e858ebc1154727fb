-- ===== src/Examples/Scenarios.antt =====
-- A scripted hand (services/game-service/app/domain/scenario_runner.py).
use poker_room_backend.Prelude.{
  change_first, ℤ, pos, ◌+ℤ◌, ◌-ℤ◌, ◌≡◌, ◌≢◌, refl, String, true, false, Option, some, none, [],
  ◌∷◌, arith, eq_iff, str_eq, if◌then◌else◌,
}
use poker_room_backend.Prelude.Sorting.{sorted, insert_by}
use poker_room_backend.Domain.Constants.{RoundStatus, Street, bet_action_of}
use poker_room_backend.Domain.Exceptions.{DomainError}
use poker_room_backend.Domain.Models.{Round}
use poker_room_backend.Engine.Positions.{contains, index}
use poker_room_backend.Engine.BlindPosting.{post_blinds_and_antes, post_player, ante_of, blind_of}
use poker_room_backend.Engine.ActionPipeline.{
  apply_action, transition_hand_state, build_hand_context, player_mutation_of, highest_after,
  min_raise_after, action_seat, turn_after, round_mutation_of, mutate_player, mutate_players,
  mutate_round, apply_transition,
}
use poker_room_backend.Engine.TurnEngine.{start_index, turn_loop, next_to_act}
use poker_room_backend.Engine.Validator.{
  get_player, call_amount, validate_call, validate_opening_bet, validate_raise, validate_action,
  may_act, validate_bet,
}
use poker_room_backend.Scenario.{
  PlayerSetup, HandScenario, Expectation, ScenarioResult, add_action, expect, seat_left_of,
  write_postings, post_blinds, run_actions, holds, evaluate_all, scenario_seats, opening,
  run_scenario,
}
use poker_room_backend.Scenario.Opening.{IsFairScenario}
use poker_room_backend.Scenario.Laws.{IsScenarioEnd, run_scenario_lem}

abbrev setup : String → ℤ → PlayerSetup
setup player_id seat = record { player_id = player_id; seat = seat; stack = pos 100 }

abbrev empty_script : HandScenario
empty_script = record {
  name = "raise and fold";
  players = setup "ann" (pos 1) ∷ setup "bob" (pos 2) ∷ setup "cat" (pos 3) ∷ [];
  blinds = record { small = pos 1; big = pos 2; ante = pos 0 };
  dealer_seat = pos 1;
  actions = [];
  expectations = [];
}

-- A raise in lower case, a fold, and a check that is refused.
abbrev script : HandScenario
script = expect (Expectation.error "CheckNotAllowed") (
    expect (Expectation.player_folded "bob") (
      expect (Expectation.pot (pos 9)) (
        add_action "cat" "CHECK" (pos 0)
          (add_action "bob" "FOLD" (pos 0) (add_action "ann" "raise" (pos 6) empty_script)))))

abbrev blank : Round
blank = record {
  round_id = "";
  game_id = "";
  round_number = pos 1;
  dealer_seat = pos 1;
  small_blind_seat = pos 1;
  big_blind_seat = pos 1;
  small_blind_amount = pos 0;
  big_blind_amount = pos 0;
  ante_amount = pos 0;
  status = RoundStatus.active;
  pot_amount = pos 0;
  street = Street.pre_flop;
  acting_player_id = none;
  current_highest_bet = pos 0;
  minimum_raise_amount = pos 0;
  is_action_closed = false;
  last_aggressor_seat = none;
  engine_version = "1";
  state_version = pos 1;
  completed_at = none;
}

abbrev class_name : DomainError → String
class_name DomainError.check_not_allowed = "CheckNotAllowed"
class_name _ = "DomainError"

-- Python's `str.upper`, on the words of the script.
abbrev upper : String → String
upper s = if str_eq s "raise" then "RAISE" else s

abbrev no_result : ScenarioResult
no_result = record {
  scenario_name = "";
  passed = false;
  actions_applied = 0;
  expectation_results = [];
}

abbrev result_or : ScenarioResult → Option ScenarioResult → ScenarioResult
result_or r none = r
result_or r (some r') = r'

abbrev outcome : ScenarioResult
outcome = result_or no_result (run_scenario upper class_name blank script)

script_runs : (run_scenario upper class_name blank script ≡ some outcome) × (outcome.passed ≡ true)
unfolding change_first sorted insert_by contains index seat_left_of write_postings post_blinds
    run_actions holds evaluate_all scenario_seats opening run_scenario bet_action_of
    post_blinds_and_antes post_player ante_of blind_of apply_action transition_hand_state
    build_hand_context player_mutation_of highest_after min_raise_after action_seat turn_after
    round_mutation_of mutate_player mutate_players mutate_round apply_transition start_index
    turn_loop next_to_act get_player call_amount validate_call validate_opening_bet validate_raise
    validate_action may_act validate_bet ◌+ℤ◌ ◌-ℤ◌
script_runs = (refl, refl)

ann-ne-bob : ◌≢◌ {A = String} "ann" "bob"
ann-ne-bob e = ground (arith, (eq_iff "ann" "bob").1 e)

ann-ne-cat : ◌≢◌ {A = String} "ann" "cat"
ann-ne-cat e = ground (arith, (eq_iff "ann" "cat").1 e)

bob-ne-cat : ◌≢◌ {A = String} "bob" "cat"
bob-ne-cat e = ground (arith, (eq_iff "bob" "cat").1 e)

script-IsFairScenario : IsFairScenario script
script-IsFairScenario = record {
  small_nonneg = omega arith;
  big_nonneg = omega arith;
  stacks_pos = (omega arith, (omega arith, (omega arith, tt)));
  distinct = ((ann-ne-bob, (ann-ne-cat, tt)), ((bob-ne-cat, tt), (tt, tt)));
}

run_scenario_lem_example :
    (result : ScenarioResult) × (run_scenario upper class_name blank script ≡ some result)
    × IsScenarioEnd upper class_name blank script result
run_scenario_lem_example =
    run_scenario_lem upper class_name blank script (omega arith) script-IsFairScenario (omega arith)
