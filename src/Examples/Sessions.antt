-- ===== src/Examples/Sessions.antt =====
-- A game from its start to a resolved hand, and the commands on its table
-- (services/game-service/app/application/commands).
use poker_room_backend.Prelude.{
  change_first, ℕ, ℤ, pos, ◌+ℤ◌, ◌-ℤ◌, ◌*ℤ◌, ◌≡◌, ◌≢◌, refl, String, false, some, none, List, [],
  ◌∷◌, All, arith, eq_iff,
}
use poker_room_backend.Prelude.Sorting.{sorted, insert_by}
use poker_room_backend.Domain.Constants.{BetAction, bet_action_of}
use poker_room_backend.Domain.Exceptions.{Result, ok, err}
use poker_room_backend.Domain.Models.{Bet}
use poker_room_backend.Domain.RoomConfig.{active_players, active_seats, blind_level}
use poker_room_backend.Engine.Positions.{contains, index, positions_from, rotate_positions}
use poker_room_backend.Engine.BlindPosting.{post_blinds_and_antes, post_player, ante_of, blind_of}
use poker_room_backend.Engine.ActionPipeline.{
  apply_action, transition_hand_state, build_hand_context, player_mutation_of, highest_after,
  min_raise_after, action_seat, turn_after, round_mutation_of, mutate_player, mutate_players,
  mutate_round, apply_transition,
}
use poker_room_backend.Engine.TurnEngine.{start_index, turn_loop, next_to_act}
use poker_room_backend.Engine.Validator.{
  get_player, call_amount, validate_call, validate_opening_bet, validate_raise, validate_action,
  may_act, validate_bet,
}
use poker_room_backend.Engine.SidePots.{
  has_id, unique_ordered, level_pot, raw_pots, merge_step, merge_loop, add_carry, merge_dead_pots,
  number_pots, calculate_side_pots,
}
use poker_room_backend.Engine.PayoutValidation.{
  PotPayout, check_winners, check_payout, check_payouts, pot_at, validate_payouts_against_side_pots,
}
use poker_room_backend.Engine.TableRuntime.{record_hand, should_advance, advance}
use poker_room_backend.Application.Rows.{HandRows, record_bet_action}
use poker_room_backend.Application.StartRound.{
  start_round, new_rows, level_of, may_start, first_to_act_index, ante_amount, first_acting,
  posting_entries,
}
use poker_room_backend.Application.StartRound.Laws.{HasFairLevels}
use poker_room_backend.Application.PlaceBet.{
  BetRequest, existing_bet, place_new_bet, replay_or_place, place_bet,
}
use poker_room_backend.Application.Play.{Play, Play-IsConsistent, started, bet}
use poker_room_backend.Application.HandCompletion.{
  seconds_per_level, counted_clock, apply_hand_completion,
}
use poker_room_backend.Application.Snapshot.{
  load_room_snapshot, sync_players, sync_room_snapshot_players_from_round,
}
use poker_room_backend.Application.Snapshot.Laws.{HasDistinctPlayers}
use poker_room_backend.Application.ResolveHand.{
  GameRows, ResolveIds, total_paid, check_amounts, has_round_completed_entry, pay_winners, pay_pots,
  next_seats, settle, resolve_hand,
}
use poker_room_backend.Application.ResolveHand.Accepted.{HasChips}
use poker_room_backend.Application.ResolveHand.Laws.{IsSettled, resolve_hand_lem}
use poker_room_backend.Application.Session.{IsKept, opened, hand, rows_of, Session-IsKept}
use poker_room_backend.Examples.Tables.{
  room, game, first_level, round_ids, by_controller, bet_ids, request, started_rows, placed_rows,
  placed_bet,
}

abbrev rows0 : HandRows
rows0 =
    started_rows (new_rows round_ids game room first_level (pos 1))
      (start_round round_ids game false (load_room_snapshot room) by_controller)

abbrev raise_to_6 : BetRequest
raise_to_6 = request "ann" "RAISE" (pos 6) none

abbrev no_bet : Bet
no_bet = record {
  bet_id = "";
  round_id = "";
  player_id = "";
  action = BetAction.fold;
  amount = pos 0;
  idempotency_key = none;
}

abbrev placed : Result (HandRows × Bet)
placed = place_new_bet bet_ids (pos 1) rows0 raise_to_6 BetAction.raise

abbrev rows1 : HandRows
rows1 = placed_rows rows0 placed

abbrev same_word : String → String
same_word s = s

abbrev to_ann : ℕ → ℤ → PotPayout
to_ann pot_index amount = record {
  pot_index = pot_index;
  pot_type = "main";
  amount = amount;
  winners = record { player_id = "ann"; amount = amount } ∷ [];
}

-- The first player, who raised to 6, takes the three pots.
abbrev payouts : List PotPayout
payouts = to_ann 0 (pos 3) ∷ to_ann 1 (pos 2) ∷ to_ann 2 (pos 4) ∷ []

abbrev ids : ResolveIds
ids = record {
  payout_entry_id = λ n player_id. player_id;
  completed_entry_id = "completed";
  now = pos 1000;
}

abbrev before : GameRows
before = rows_of game room rows1 []

abbrev resolved_rows : GameRows → Result GameRows → GameRows
resolved_rows t (ok t') = t'
resolved_rows t (err e) = t

abbrev after : GameRows
after = resolved_rows before (resolve_hand ids payouts before)

session_runs :
    (start_round round_ids game false (load_room_snapshot room) by_controller ≡ ok (some rows0))
    × (place_bet same_word bet_ids (pos 1) (some rows0) raise_to_6
        ≡ ok (some rows1, placed_bet no_bet placed))
    × (resolve_hand ids payouts before ≡ ok after)
unfolding change_first start_round level_of may_start first_to_act_index active_players active_seats
    blind_level sorted insert_by contains index new_rows ante_amount first_acting posting_entries
    post_blinds_and_antes post_player ante_of blind_of place_new_bet apply_action
    transition_hand_state build_hand_context player_mutation_of highest_after min_raise_after
    action_seat turn_after round_mutation_of mutate_player mutate_players mutate_round
    apply_transition start_index turn_loop next_to_act get_player call_amount validate_call
    validate_opening_bet validate_raise validate_action may_act validate_bet record_bet_action
    place_bet replay_or_place existing_bet bet_action_of ◌-ℤ◌ ◌+ℤ◌ ◌*ℤ◌
    validate_payouts_against_side_pots check_payouts check_payout check_winners pot_at
    calculate_side_pots number_pots merge_dead_pots add_carry merge_loop merge_step raw_pots
    level_pot unique_ordered has_id resolve_hand settle check_amounts has_round_completed_entry
    pay_winners pay_pots next_seats positions_from rotate_positions seconds_per_level counted_clock
    apply_hand_completion record_hand should_advance advance load_room_snapshot sync_players
    sync_room_snapshot_players_from_round
session_runs = (refl, refl, refl)

played : Play game (load_room_snapshot room) rows1
played =
    bet same_word bet_ids (pos 1) raise_to_6 (started round_ids false by_controller session_runs.0)
      session_runs.1

room-HasFairLevels : HasFairLevels room
room-HasFairLevels = ((omega arith, omega arith), tt)

loaded-HasFairLevels : HasFairLevels (load_room_snapshot room)
unfolding load_room_snapshot sorted insert_by
loaded-HasFairLevels = ((omega arith, omega arith), tt)

payouts-HasChips : All HasChips payouts
payouts-HasChips = ((omega arith, tt), ((omega arith, tt), ((omega arith, tt), tt)))

resolve_hand_lem_example : IsSettled before after (total_paid payouts)
resolve_hand_lem_example =
    resolve_hand_lem ids payouts before (Play-IsConsistent loaded-HasFairLevels played).0
      payouts-HasChips session_runs.2

ann-ne-bob : ◌≢◌ {A = String} "ann" "bob"
ann-ne-bob e = ground (arith, (eq_iff "ann" "bob").1 e)

ann-ne-cat : ◌≢◌ {A = String} "ann" "cat"
ann-ne-cat e = ground (arith, (eq_iff "ann" "cat").1 e)

bob-ne-cat : ◌≢◌ {A = String} "bob" "cat"
bob-ne-cat e = ground (arith, (eq_iff "bob" "cat").1 e)

room-HasDistinctPlayers : HasDistinctPlayers room.players
room-HasDistinctPlayers = ((ann-ne-bob, (ann-ne-cat, tt)), ((bob-ne-cat, tt), (tt, tt)))

Session-IsKept_example :
    IsKept room after.snapshot (pos 0 +ℤ (rows1.round.pot_amount -ℤ total_paid payouts))
Session-IsKept_example =
    Session-IsKept room-HasFairLevels room-HasDistinctPlayers
      (hand game rows1 ids payouts [] opened played payouts-HasChips session_runs.2)
