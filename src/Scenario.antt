-- ===== src/Scenario.antt =====
-- services/game-service/app/domain/scenario_runner.py: a hand as a script of actions, and what it is
-- expected to come to. The messages of the results are left out. `none` is the fault of a scenario
-- without players.
pub mod Seats
pub mod Script
pub mod Expectations
pub mod Opening
pub mod Laws
use poker_room_backend.Prelude.{
  ℕ, suc, ◌+◌, ◌%◌, ℤ, pos, String, Bool, true, false, not, Option, none, some, List, [], ◌∷◌, ◌++◌,
  map, str_eq, eqb_ℤ, if◌then◌else◌, length, get_elem?, find_first, select,
}
use poker_room_backend.Prelude.Sorting.{sorted}
use poker_room_backend.Domain.Constants.{RoundStatus, Street, bet_action_of}
use poker_room_backend.Domain.Exceptions.{DomainError, Result, ok, err}
use poker_room_backend.Domain.Models.{Round, RoundPlayer}
use poker_room_backend.Domain.Rules.{no_limit_holdem}
use poker_room_backend.Engine.Positions.{contains, index}
use poker_room_backend.Engine.BlindPosting.{
  SeatPlayer, PostedPlayer, BlindPostingResult, Blinds, post_blinds_and_antes,
}
use poker_room_backend.Engine.ActionPipeline.{ApplyActionResult, apply_action}
use poker_room_backend.Application.Rows.{change_row}

pub record PlayerSetup : Type 0 where
  pub player_id : String
  pub seat : ℤ
  pub stack : ℤ

pub record BlindSetup : Type 0 where
  pub small : ℤ
  pub big : ℤ
  pub ante : ℤ

pub record ScriptedAction : Type 0 where
  pub player_id : String
  pub action : String
  pub amount : ℤ

-- The check types, each with its arguments.
pub data Expectation : Type 0 where
  pot : ℤ → Expectation
  action_closed : Expectation
  player_stack : String → ℤ → Expectation
  player_folded : String → Expectation
  error : String → Expectation
  unknown : String → Expectation

pub record ExpectationResult : Type 0 where
  pub passed : Bool
  pub expectation : Expectation

pub record HandScenario : Type 0 where
  pub name : String
  pub players : List PlayerSetup
  pub blinds : BlindSetup
  pub dealer_seat : ℤ
  pub actions : List ScriptedAction
  pub expectations : List Expectation

abbrev pub add_action : String → String → ℤ → HandScenario → HandScenario
add_action player_id action amount s = record s {
  actions = s.actions ++ record { player_id = player_id; action = action; amount = amount } ∷ [];
}

-- `expect_pot` and the methods like it
abbrev pub expect : Expectation → HandScenario → HandScenario
expect e s = record s { expectations = s.expectations ++ e ∷ [] }

pub record ScenarioResult : Type 0 where
  pub scenario_name : String
  pub passed : Bool
  pub actions_applied : ℕ
  pub expectation_results : List ExpectationResult

abbrev pub failures : ScenarioResult → List ExpectationResult
failures r = select (λ e. not e.passed) r.expectation_results

-- `_seat_left_of`
unfoldable pub seat_left_of : ℤ → List PlayerSetup → Option ℤ
seat_left_of seat players =
    let seats = sorted (λ s. s) (map (λ p. p.seat) players) in
    let idx = if contains seat seats then index seat seats else 0 in
    get_elem? seats ((idx + 1) % length seats)

abbrev pub scenario_player : PlayerSetup → RoundPlayer
scenario_player ps = record {
  player_id = ps.player_id;
  seat_number = ps.seat;
  stack_remaining = ps.stack;
  committed_this_street = pos 0;
  committed_this_hand = pos 0;
  has_folded = false;
  is_all_in = false;
  is_active_in_hand = true;
}

-- The round of a scenario: what the class `Round` makes, a parameter of the runner, with the arguments
-- of the call.
abbrev pub scenario_round : Round → HandScenario → ℤ → ℤ → Round
scenario_round blank s small big = record blank {
  round_id = "scenario-round";
  game_id = "scenario-game";
  round_number = pos 1;
  dealer_seat = s.dealer_seat;
  small_blind_seat = small;
  big_blind_seat = big;
  small_blind_amount = s.blinds.small;
  big_blind_amount = s.blinds.big;
  ante_amount = s.blinds.ante;
  status = RoundStatus.active;
  street = Street.pre_flop;
  pot_amount = pos 0;
  current_highest_bet = pos 0;
  minimum_raise_amount = s.blinds.big;
  is_action_closed = false;
  last_aggressor_seat = none;
}

abbrev pub scenario_seat : RoundPlayer → SeatPlayer
scenario_seat rp = record {
  player_id = rp.player_id;
  seat_number = rp.seat_number;
  stack = rp.stack_remaining;
}

abbrev pub write_posting : PostedPlayer → RoundPlayer → RoundPlayer
write_posting pp rp = record rp {
  stack_remaining = pp.stack_remaining;
  committed_this_street = pp.committed_this_street;
  committed_this_hand = pp.committed_this_hand;
  is_all_in = pp.is_all_in;
}

-- The two loops over the postings and the players.
unfoldable pub write_postings : List PostedPlayer → List RoundPlayer → List RoundPlayer
write_postings [] rps = rps
write_postings (pp ∷ pps) rps = write_postings pps (change_row pp.player_id (write_posting pp) rps)

-- The player at the seat, if there is one.
abbrev pub acting_at : ℤ → List RoundPlayer → Option String → Option String
acting_at seat rps acting = elim (find_first (λ rp. eqb_ℤ rp.seat_number seat) rps) [
  | none ↦ acting
  | some rp ↦ some rp.player_id
]

abbrev pub scenario_blinds : HandScenario → Round → Blinds
scenario_blinds s r = record {
  small_blind_seat = r.small_blind_seat;
  big_blind_seat = r.big_blind_seat;
  small_blind_amount = s.blinds.small;
  big_blind_amount = s.blinds.big;
  ante_amount = s.blinds.ante;
}

-- `_post_blinds`, with the seat behind the big blind.
unfoldable pub post_blinds : HandScenario → ℤ → Round → List RoundPlayer → Round × List RoundPlayer
post_blinds s first_seat r rps =
    let posting = post_blinds_and_antes (map scenario_seat rps) (scenario_blinds s r) in
    (
      record r {
        pot_amount = posting.pot_total;
        current_highest_bet = posting.current_highest_bet;
        minimum_raise_amount = s.blinds.big;
        acting_player_id = acting_at first_seat rps r.acting_player_id;
      },
      write_postings posting.players rps,
    )

-- The hand of a running scenario, and the error of the last action.
pub record Running : Type 0 where
  pub game_round : Round
  pub round_players : List RoundPlayer
  pub last_error : Option DomainError
  pub applied : ℕ

abbrev pub after_action : Running → Result (Round × List RoundPlayer × ApplyActionResult) → Running
after_action h (err e) = record h { last_error = some e; applied = suc h.applied }
after_action h (ok (r, rps, res)) = record {
  game_round = r;
  round_players = rps;
  last_error = none;
  applied = suc h.applied;
}

-- The loop over the actions, with the engine's `apply_action` as `apply_action_fn`. The validator reads
-- the action in upper case, and `upper` is Python's `str.upper`.
unfoldable pub run_actions : (String → String) → List ScriptedAction → Running → Running
run_actions upper [] h = h
run_actions upper (sa ∷ sas) h = run_actions upper sas (
    after_action h (
      apply_action h.game_round h.round_players sa.player_id (bet_action_of (upper sa.action))
        sa.amount no_limit_holdem none))

-- `_evaluate`; `type_name` is `type(exc).__name__`.
abbrev pub stack_is : Option RoundPlayer → ℤ → Bool
stack_is none stack = false
stack_is (some rp) stack = eqb_ℤ rp.stack_remaining stack

abbrev pub is_folded : Option RoundPlayer → Bool
is_folded none = false
is_folded (some rp) = rp.has_folded

abbrev pub error_is : (DomainError → String) → Option DomainError → String → Bool
error_is type_name none error_type = false
error_is type_name (some e) error_type = str_eq (type_name e) error_type

unfoldable pub holds : (DomainError → String) → Running → Expectation → Bool
holds type_name h (Expectation.pot amount) = eqb_ℤ h.game_round.pot_amount amount
holds type_name h Expectation.action_closed = h.game_round.is_action_closed
holds type_name h (Expectation.player_stack player_id stack) =
    stack_is (find_first (λ rp. str_eq rp.player_id player_id) h.round_players) stack
holds type_name h (Expectation.player_folded player_id) =
    is_folded (find_first (λ rp. str_eq rp.player_id player_id) h.round_players)
holds type_name h (Expectation.error error_type) = error_is type_name h.last_error error_type
holds type_name h (Expectation.unknown check_type) = false

abbrev pub evaluate : (DomainError → String) → Running → Expectation → ExpectationResult
evaluate type_name h e = record { passed = holds type_name h e; expectation = e }

unfoldable pub evaluate_all :
    (DomainError → String) → Running → List Expectation → ScenarioResult → ScenarioResult
evaluate_all type_name h [] result = result
evaluate_all type_name h (e ∷ es) result =
    let er = evaluate type_name h e in
    evaluate_all type_name h es (record result {
      expectation_results = result.expectation_results ++ er ∷ [];
      passed = if er.passed then result.passed else false;
    })

-- The seats of the blinds and of the first player to act.
unfoldable pub scenario_seats : HandScenario → Option (ℤ × ℤ × ℤ)
scenario_seats s = elim (seat_left_of s.dealer_seat s.players) [
  | none ↦ none
  | some small ↦ elim (seat_left_of small s.players) [
    | none ↦ none
    | some big ↦ elim (seat_left_of big s.players) [
      | none ↦ none
      | some first ↦ some (small, big, first)
    ]
  ]
]

-- The hand after its blinds.
unfoldable pub opening : Round → HandScenario → ℤ × ℤ × ℤ → Running
opening blank s (small, big, first) =
    let (r, rps) =
      post_blinds s first (scenario_round blank s small big) (map scenario_player s.players) in
    record { game_round = r; round_players = rps; last_error = none; applied = 0 }

abbrev pub finish_scenario : (DomainError → String) → HandScenario → Running → ScenarioResult
finish_scenario type_name s h = evaluate_all type_name h s.expectations (record {
  scenario_name = s.name;
  passed = true;
  actions_applied = h.applied;
  expectation_results = [];
})

unfoldable pub run_scenario :
    (String → String) → (DomainError → String) → Round → HandScenario → Option ScenarioResult
run_scenario upper type_name blank s = elim (scenario_seats s) [
  | none ↦ none
  | some seats ↦
      some (finish_scenario type_name s (run_actions upper s.actions (opening blank s seats)))
]
