-- ===== src/Examples/Hands.antt =====
-- A hand of three players, command by command
-- (services/game-service/app/application/commands).
use poker_room_backend.Prelude.{
  change_first, ℤ, pos, ◌+◌, ◌≤ℤ◌, ◌+ℤ◌, ◌-ℤ◌, ◌≡◌, ◌≢◌, refl, String, false, true, some, none,
  sum_by, arith, if◌then◌else◌, eqb_ℤ, ◌&&◌, eq_iff, find_first, str_eq,
}
use poker_room_backend.Prelude.Sorting.{sorted, insert_by}
use poker_room_backend.Domain.Constants.{BetAction, bet_action_of, eqb_action}
use poker_room_backend.Domain.Exceptions.{DomainError, Result, ok, err}
use poker_room_backend.Domain.Models.{Bet, RoundPlayer}
use poker_room_backend.Domain.Rules.{no_limit_holdem}
use poker_room_backend.Domain.RoomConfig.{active_players, active_seats, blind_level}
use poker_room_backend.Engine.Positions.{contains, index}
use poker_room_backend.Engine.BlindPosting.{post_blinds_and_antes, post_player, ante_of, blind_of}
use poker_room_backend.Engine.ActionPipeline.Conservation.{chips, committed, chips-apply_action}
use poker_room_backend.Engine.ActionPipeline.Invariant.{IsSound, apply_action-IsSound}
use poker_room_backend.Engine.ActionPipeline.{
  ApplyActionResult, apply_action, transition_hand_state, build_hand_context, player_mutation_of,
  highest_after, min_raise_after, action_seat, turn_after, round_mutation_of, mutate_player,
  mutate_players, mutate_round, apply_transition,
}
use poker_room_backend.Engine.TurnEngine.{start_index, turn_loop, next_to_act}
use poker_room_backend.Engine.Validator.{
  PlayerState, get_player, call_amount, validate_call, validate_opening_bet, validate_raise,
  validate_action, may_act, validate_bet,
}
use poker_room_backend.Engine.StreetProgression.{
  next_street, find_first_to_act, evaluate_street_end,
}
use poker_room_backend.Application.Rows.{
  HandRows, record_bet_action, get_hand_state, bet_entry, Seated,
}
use poker_room_backend.Application.Consistency.{IsConsistent, chips_of}
use poker_room_backend.Application.StartRound.{
  start_round, new_rows, level_of, may_start, first_to_act_index, ante_amount, first_acting,
  posting_entries,
}
use poker_room_backend.Application.StartRound.Laws.{HasFairLevels, start_round_lem}
use poker_room_backend.Application.PlaceBet.{
  BetRequest, existing_bet, place_new_bet, replay_or_place, place_bet,
}
use poker_room_backend.Application.PlaceBet.Laws.{place_new_bet_once, place_bet_lem}
use poker_room_backend.Application.PlaceBet.Retry.{place_bet_again, place_bet_again_raise}
use poker_room_backend.Application.StreetCommands.{advance_street, write_street, street_end}
use poker_room_backend.Application.Play.{Play, Play-IsConsistent, started, bet, street}
use poker_room_backend.Application.Corrections.{Correction, reverse_action, is_reversed}
use poker_room_backend.Application.Corrections.Laws.{reverse_action_lem, reverse_action_once}
use poker_room_backend.Application.Corrections.{PayoutCorrection, correct_payout}
use poker_room_backend.Application.ResolveHand.Paying.{ids_of}
use poker_room_backend.Application.ResolveHand.Corrected.{IsCorrected, correct_payout_lem}
use poker_room_backend.Engine.SidePots.{has_id}
use poker_room_backend.Engine.ActionPipeline.Termination.{
  acted, opened, cost, reserves, Betting_bound,
}
use poker_room_backend.Examples.Tables.{
  room, game, first_level, round_ids, by_controller, bet_ids, request, started_rows, street_rows,
  applied_result, corrected_rows, placed_rows, placed_bet,
}

room-HasFairLevels : HasFairLevels room
room-HasFairLevels = ((omega arith, omega arith), tt)

abbrev rows0 : HandRows
rows0 =
    started_rows (new_rows round_ids game room first_level (pos 1))
      (start_round round_ids game false room by_controller)

abbrev raise_to : String → ℤ → String → BetRequest
raise_to player_id amount key = request player_id "RAISE" amount (some key)

abbrev no_bet : Bet
no_bet = record {
  bet_id = "";
  round_id = "";
  player_id = "";
  action = BetAction.fold;
  amount = pos 0;
  idempotency_key = none;
}

-- The first player raises to 6, and the small blind to 10.
abbrev first_raise : BetRequest
first_raise = raise_to "ann" (pos 6) "first"

abbrev second_raise : BetRequest
second_raise = raise_to "bob" (pos 10) "second"

abbrev result1 : Result (HandRows × Bet)
result1 = place_new_bet bet_ids (pos 1) rows0 first_raise BetAction.raise

abbrev rows1 : HandRows
rows1 = placed_rows rows0 result1

abbrev bet1 : Bet
bet1 = placed_bet no_bet result1

abbrev result2 : Result (HandRows × Bet)
result2 = place_new_bet bet_ids (pos 2) rows1 second_raise BetAction.raise

abbrev rows2 : HandRows
rows2 = placed_rows rows1 result2

abbrev bet2 : Bet
bet2 = placed_bet no_bet result2

abbrev rows3 : HandRows
rows3 = street_rows rows2 (advance_street rows2)

-- Python's `str.upper`, on words that are in upper case.
abbrev same_word : String → String
same_word s = s

abbrev small_blind : PlayerState
small_blind = record {
  player_id = "bob";
  seat_number = pos 2;
  stack_remaining = pos 49;
  committed_this_street = pos 1;
  committed_this_hand = pos 1;
  has_folded = false;
  is_all_in = false;
  is_active_in_hand = true;
}

abbrev first_result : ApplyActionResult
first_result = applied_result (
    apply_action rows0.round rows0.players "ann" (some BetAction.raise) (pos 6) no_limit_holdem
      none)

-- The first player's raise is taken back.
abbrev correction : Correction
correction = record { entry_id = "undo"; dealer_id = none; reason = none }

abbrev rows4 : HandRows
rows4 = corrected_rows rows1 (reverse_action correction "entry" rows1)

abbrev raiser : RoundPlayer
raiser = record {
  player_id = "ann";
  seat_number = pos 1;
  stack_remaining = pos 94;
  committed_this_street = pos 6;
  committed_this_hand = pos 6;
  has_folded = false;
  is_all_in = false;
  is_active_in_hand = true;
}

-- The commands, as they run.
hand_runs :
    (start_round round_ids game false room by_controller ≡ ok (some rows0))
    × (place_new_bet bet_ids (pos 1) rows0 first_raise BetAction.raise ≡ ok (rows1, bet1))
    × (place_bet same_word bet_ids (pos 1) (some rows0) first_raise ≡ ok (some rows1, bet1))
    × (place_bet same_word bet_ids (pos 2) (some rows1) second_raise ≡ ok (some rows2, bet2))
    × (advance_street rows2 ≡ ok (rows3, street_end rows2))
    × (existing_bet (some "first") rows0.bets ≡ none)
    × (existing_bet (some "second") rows1.bets ≡ none)
    × (bet_action_of "RAISE" ≡ some BetAction.raise)
    × (get_player (build_hand_context rows1.round rows1.players) "bob" ≡ some small_blind)
    × (apply_action rows0.round rows0.players "ann"
          (some BetAction.raise)
          (pos 6)
          no_limit_holdem
          none
        ≡ ok (rows1.round, rows1.players, first_result))
    × (reverse_action correction "entry" rows1 ≡ ok rows4)
    × (find_first (λ e. str_eq e.entry_id "entry") rows1.ledger
        ≡ some (bet_entry bet_ids "round" "ann" (pos 6)))
    × Seated "ann" rows1.players raiser
    × (has_id "bob" (ids_of rows1.players) ≡ true)
    × (has_id "cat" (ids_of rows1.players) ≡ true)
unfolding has_id reverse_action is_reversed change_first start_round level_of may_start
    first_to_act_index active_players active_seats blind_level sorted insert_by contains index
    new_rows ante_amount first_acting posting_entries post_blinds_and_antes post_player ante_of
    blind_of place_new_bet apply_action transition_hand_state build_hand_context player_mutation_of
    highest_after min_raise_after action_seat turn_after round_mutation_of mutate_player
    mutate_players mutate_round apply_transition start_index turn_loop next_to_act get_player
    call_amount validate_call validate_opening_bet validate_raise validate_action may_act
    validate_bet record_bet_action place_bet replay_or_place existing_bet bet_action_of
    advance_street write_street evaluate_street_end next_street find_first_to_act ◌-ℤ◌ ◌+ℤ◌
hand_runs =
    (refl, refl, refl, refl, refl, refl, refl, refl, refl, refl, refl, refl, refl, refl, refl)

rows0-IsConsistent : IsConsistent rows0
rows0-IsConsistent =
    (start_round_lem round_ids game false room by_controller room-HasFairLevels hand_runs.0).0

rows1-IsConsistent : IsConsistent rows1
rows1-IsConsistent =
    (place_bet_lem same_word bet_ids (pos 1) rows0 first_raise rows0-IsConsistent hand_runs.2).0

played : Play game room rows3
played =
    street
      (bet same_word bet_ids (pos 2) second_raise
        (bet same_word bet_ids (pos 1) first_raise
          (started round_ids false by_controller hand_runs.0) hand_runs.2)
        hand_runs.3)
      hand_runs.4

Play-IsConsistent_example :
    IsConsistent rows3 × (chips_of rows3 ≡ sum_by (λ p. p.chip_count) (active_players room))
Play-IsConsistent_example = Play-IsConsistent room-HasFairLevels played

place_new_bet_once_example :
    place_new_bet bet_ids rows1.round.state_version rows0 second_raise BetAction.raise
    ≢ ok (rows2, bet2)
place_new_bet_once_example =
    place_new_bet_once bet_ids bet_ids (pos 1) rows0 first_raise second_raise BetAction.raise
      BetAction.raise hand_runs.1

first-ne-empty : ◌≢◌ {A = String} "first" ""
first-ne-empty e = ground (arith, (eq_iff "first" "").1 e)

second-ne-empty : ◌≢◌ {A = String} "second" ""
second-ne-empty e = ground (arith, (eq_iff "second" "").1 e)

place_bet_again_example : place_bet same_word bet_ids (pos 9) (some rows1) first_raise ≡ (
    if eqb_action bet1.action BetAction.raise && eqb_ℤ bet1.amount (pos 6)
    then ok (some rows1, bet1)
    else err DomainError.idempotency_conflict)
place_bet_again_example =
    place_bet_again same_word bet_ids bet_ids (pos 1) (pos 9) rows0 first_raise BetAction.raise
      "first" hand_runs.7 refl first-ne-empty hand_runs.5 hand_runs.2

place_bet_again_raise_example :
    place_bet same_word bet_ids (pos 9) (some rows2) second_raise
    ≡ err DomainError.idempotency_conflict
place_bet_again_raise_example =
    place_bet_again_raise same_word bet_ids bet_ids (pos 2) (pos 9) rows1 second_raise "second"
      small_blind hand_runs.7 refl second-ne-empty hand_runs.6 hand_runs.8 (omega arith) hand_runs.3

chips-apply_action_example :
    (chips rows1.round rows1.players ≡ chips rows0.round rows0.players)
    × (rows1.round.pot_amount ≡ rows0.round.pot_amount +ℤ first_result.amount)
    × (committed rows1.players ≡ committed rows0.players +ℤ first_result.amount)
chips-apply_action_example =
    chips-apply_action rows0.round rows0.players "ann" (some BetAction.raise) (pos 6)
      no_limit_holdem none hand_runs.9

apply_action-IsSound_example : IsSound rows1.round rows1.players
apply_action-IsSound_example =
    apply_action-IsSound rows0.round rows0.players "ann" (some BetAction.raise) (pos 6)
      no_limit_holdem none rows0-IsConsistent.sound hand_runs.9

ann-ne-empty : ◌≢◌ {A = String} "ann" ""
ann-ne-empty e = ground (arith, (eq_iff "ann" "").1 e)

reverse_action_lem_example :
    (chips_of rows4 ≡ chips_of rows1)
    × (rows4.round.pot_amount ≡ committed rows4.players)
    × ((get_hand_state rows4).pot_total ≡ rows4.round.pot_amount)
reverse_action_lem_example =
    reverse_action_lem correction "entry" rows1 (bet_entry bet_ids "round" "ann" (pos 6)) "ann"
      (pos 6) raiser rows1-IsConsistent hand_runs.11 refl refl ann-ne-empty (omega arith)
      hand_runs.12 (omega arith) hand_runs.10

reverse_action_once_example :
    reverse_action correction "entry" rows4 ≡ err DomainError.entry_already_reversed
reverse_action_once_example = reverse_action_once correction correction "entry" rows1 hand_runs.10

Betting_bound_example : pos (0 + cost first_result.action) ≤ℤ reserves rows0.players
Betting_bound_example =
    Betting_bound rows0-IsConsistent.sound
      (acted "ann" (some BetAction.raise) (pos 6) no_limit_holdem none opened hand_runs.9)

-- A chip of the second player's goes to the third.
abbrev payout_correction : PayoutCorrection
payout_correction = record {
  old_player_id = "bob";
  old_amount = pos 1;
  new_player_id = "cat";
  new_amount = pos 1;
}

correct_payout_lem_example :
    IsCorrected payout_correction rows1 (correct_payout correction payout_correction rows1)
correct_payout_lem_example =
    correct_payout_lem correction payout_correction rows1 hand_runs.13 hand_runs.14
