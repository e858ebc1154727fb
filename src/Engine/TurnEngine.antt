-- ===== src/Engine/TurnEngine.antt =====
-- services/game-service/app/domain/engine/turn_engine.py: who acts next, or that the betting of the
-- street is closed.
pub mod Rotation
pub mod Laws
use poker_room_backend.Prelude.{
  ℕ, zero, suc, ◌+◌, ◌%◌, ℤ, String, Bool, true, false, not, ◌&&◌, Option, none, some, List, [],
  ◌∷◌, ltb, ltb_ℤ, eqb_ℤ, if◌then◌else◌, length, get_elem?, select,
}
use poker_room_backend.Prelude.Sorting.{sorted}

pub record ActionSeat : Type 0 where
  pub player_id : String
  pub seat_number : ℤ
  pub has_folded : Bool
  pub is_all_in : Bool
  pub is_active_in_hand : Bool
  pub committed_this_street : ℤ

pub record NextActorResult : Type 0 where
  pub player_id : Option String
  pub seat_number : Option ℤ
  pub is_round_closed : Bool

abbrev pub can_act : ActionSeat → Bool
can_act p = p.is_active_in_hand && not p.has_folded && not p.is_all_in

abbrev pub needs_action : ActionSeat → ℤ → Bool
needs_action p highest_bet = can_act p && ltb_ℤ p.committed_this_street highest_bet

abbrev pub closed : NextActorResult
closed = record { player_id = none; seat_number = none; is_round_closed = true }

abbrev pub acts : ActionSeat → NextActorResult
acts p = record {
  player_id = some p.player_id;
  seat_number = some p.seat_number;
  is_round_closed = false;
}

-- The first index behind the actor's seat, 0 if there is none.
unfoldable pub start_index : ℤ → ℕ → List ActionSeat → ℕ
start_index current_actor_seat i [] = 0
start_index current_actor_seat i (p ∷ ps) =
    if ltb_ℤ current_actor_seat p.seat_number then i else start_index current_actor_seat (suc i) ps

abbrev pub is_aggressor : Option ℤ → ActionSeat → Bool
is_aggressor none p = false
is_aggressor (some seat) p = eqb_ℤ p.seat_number seat

-- One candidate of the loop, with what the rest of the loop returns.
abbrev pub consider : Option ℤ → ℤ → ActionSeat → NextActorResult → NextActorResult
consider last_aggressor_seat highest p rest =
    if is_aggressor last_aggressor_seat p
    then closed
    else if needs_action p highest
    then acts p
    else rest

-- `for step in range(n)`, from `step` with `left` rounds to go.
unfoldable pub turn_loop : List ActionSeat → Option ℤ → ℤ → ℕ → ℕ → ℕ → NextActorResult
turn_loop ordered aggressor highest start step zero = closed
turn_loop ordered aggressor highest start step (suc left) =
    elim (get_elem? ordered ((start + step) % length ordered)) [
      | none ↦ closed
      | some p ↦
          consider aggressor highest p (turn_loop ordered aggressor highest start (suc step) left)
    ]

unfoldable pub next_to_act : List ActionSeat → ℤ → Option ℤ → ℤ → NextActorResult
unfolding start_index turn_loop
next_to_act players current_actor_seat last_aggressor_seat current_highest_bet =
    let eligible = select can_act players in
    let ordered = sorted (λ p. p.seat_number) eligible in
    if ltb (length eligible) 2
    then closed
    else turn_loop ordered last_aggressor_seat current_highest_bet
        (start_index current_actor_seat 0 ordered) 0 (length ordered)
