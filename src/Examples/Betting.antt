-- ===== src/Examples/Betting.antt =====
-- Bets and turns at a table of three seats
-- (services/game-service/app/domain/engine/validator.py, turn_engine.py, blind_posting.py).
use poker_room_backend.Prelude.{
  ℤ, pos, ◌+ℤ◌, ◌≤ℤ◌, ◌≤◌, ◌<◌, ◌≡◌, ◌↔◌, ◌⊎◌, refl, String, true, false, some, none, List, [], ◌∷◌,
  sum_by, All, arith, if◌then◌else◌, ltb, length, select,
}
use poker_room_backend.Prelude.Sorting.{sorted, insert_by}
use poker_room_backend.Domain.Constants.{RoundStatus, Street, BetAction}
use poker_room_backend.Domain.Exceptions.{ok}
use poker_room_backend.Domain.Rules.{no_limit_holdem}
use poker_room_backend.Engine.Validator.{PlayerState, HandContext, validate_bet}
use poker_room_backend.Engine.Validator.Legal.{MayAct, IsLegal, outcome, validate_bet_iff}
use poker_room_backend.Engine.TurnEngine.{
  ActionSeat, can_act, closed, start_index, turn_loop, next_to_act,
}
use poker_room_backend.Engine.TurnEngine.Rotation.{walk, clockwise, next_to_act-eq-walk}
use poker_room_backend.Engine.TurnEngine.Laws.{Outcome, order, next_to_act_lem, next_to_act_matched}
use poker_room_backend.Engine.BlindPosting.{SeatPlayer, Blinds, post_blinds_and_antes}
use poker_room_backend.Engine.BlindPosting.Laws.{AllPosted, IsPostable, post_blinds_and_antes_lem}

abbrev seat : String → ℤ → ℤ → ActionSeat
seat player_id seat_number committed = record {
  player_id = player_id;
  seat_number = seat_number;
  has_folded = false;
  is_all_in = false;
  is_active_in_hand = true;
  committed_this_street = committed;
}

abbrev three_seats : List ActionSeat
three_seats =
    seat "ann" (pos 1) (pos 6) ∷ seat "bob" (pos 2) (pos 1) ∷ seat "cat" (pos 3) (pos 2) ∷ []

abbrev level_seats : List ActionSeat
level_seats = seat "ann" (pos 1) (pos 6) ∷ seat "bob" (pos 2) (pos 6) ∷ []

next_to_act-eq-walk_example : next_to_act three_seats (pos 1) (some (pos 1)) (pos 6) ≡ (
    if ltb (length (select can_act three_seats)) 2
    then closed
    else walk
        (some (pos 1))
        (pos 6)
        (clockwise (pos 1) (sorted (λ p. p.seat_number) (select can_act three_seats))))
next_to_act-eq-walk_example = next_to_act-eq-walk three_seats (pos 1) (some (pos 1)) (pos 6)

next_to_act_lem_example :
    ((length (select can_act three_seats) < 2)
      × (next_to_act three_seats (pos 1) (some (pos 1)) (pos 6) ≡ closed))
    ⊎ ((2 ≤ length (select can_act three_seats))
        × Outcome
            (some (pos 1))
            (pos 6)
            (order three_seats (pos 1))
            (next_to_act three_seats (pos 1) (some (pos 1)) (pos 6)))
next_to_act_lem_example = next_to_act_lem three_seats (pos 1) (some (pos 1)) (pos 6)

still_open : (next_to_act three_seats (pos 1) (some (pos 1)) (pos 6)).is_round_closed ≡ false
unfolding next_to_act start_index turn_loop sorted insert_by
still_open = refl

next_to_act_matched_example : next_to_act level_seats (pos 1) none (pos 6) ≡ closed
next_to_act_matched_example =
    next_to_act_matched level_seats (pos 1) none (pos 6) (omega arith, (omega arith, tt))

abbrev state : String → ℤ → ℤ → ℤ → PlayerState
state player_id seat_number stack committed = record {
  player_id = player_id;
  seat_number = seat_number;
  stack_remaining = stack;
  committed_this_street = committed;
  committed_this_hand = committed;
  has_folded = false;
  is_all_in = false;
  is_active_in_hand = true;
}

abbrev context : HandContext
context = record {
  round_id = "round";
  status = RoundStatus.active;
  street = Street.pre_flop;
  acting_player_id = some "ann";
  current_highest_bet = pos 2;
  minimum_raise_amount = pos 2;
  is_action_closed = false;
  players = state "ann" (pos 1) (pos 100) (pos 0) ∷ state "bob" (pos 2) (pos 49) (pos 1) ∷ [];
}

validate_bet_iff_example :
    (validate_bet context "ann" (some BetAction.call) (pos 0) no_limit_holdem
      ≡ ok (outcome BetAction.call (pos 2)))
    ↔ ((p : PlayerState) × MayAct context "ann" p
        × IsLegal context p (some BetAction.call) (pos 0) (outcome BetAction.call (pos 2)))
validate_bet_iff_example =
    validate_bet_iff context "ann" (some BetAction.call) (pos 0) no_limit_holdem
      (outcome BetAction.call (pos 2))

abbrev blinds : Blinds
blinds = record {
  small_blind_seat = pos 1;
  big_blind_seat = pos 2;
  small_blind_amount = pos 1;
  big_blind_amount = pos 2;
  ante_amount = pos 1;
}

abbrev sitting : String → ℤ → ℤ → SeatPlayer
sitting player_id seat_number stack = record {
  player_id = player_id;
  seat_number = seat_number;
  stack = stack;
}

-- The second player has less than the ante and the big blind.
abbrev two_stacks : List SeatPlayer
two_stacks = sitting "ann" (pos 1) (pos 40) ∷ sitting "bob" (pos 2) (pos 2) ∷ []

blinds-IsPostable : IsPostable blinds
blinds-IsPostable = record { small_nonneg = omega arith; big_nonneg = omega arith }

post_blinds_and_antes_lem_example :
    let r = post_blinds_and_antes two_stacks blinds in
    AllPosted blinds two_stacks r.players
    × (sum_by (λ p. p.stack_remaining) r.players +ℤ r.pot_total ≡ sum_by (λ s. s.stack) two_stacks)
    × (r.pot_total ≡ sum_by (λ p. p.committed_this_hand) r.players)
    × All (λ p. p.committed_this_street ≤ℤ r.current_highest_bet) r.players
post_blinds_and_antes_lem_example =
    post_blinds_and_antes_lem two_stacks blinds blinds-IsPostable (omega arith, (omega arith, tt))
