-- ===== src/Engine/StreetProgression.antt =====
-- services/game-service/app/domain/engine/street_progression.py: what follows a betting street.
pub mod Laws
use poker_room_backend.Prelude.{
  ℕ, suc, ℤ, String, Bool, true, false, not, ◌&&◌, Option, none, some, List, [], ◌∷◌, leb, ltb_ℤ,
  if◌then◌else◌, length, get_elem?, select,
}
use poker_room_backend.Prelude.Sorting.{sorted}
use poker_room_backend.Domain.Constants.{Street, StreetAdvanceAction}

abbrev pub street_order : List Street
street_order = Street.pre_flop ∷ Street.flop ∷ Street.turn ∷ Street.river ∷ Street.showdown ∷ []

pub record PlayerSeat : Type 0 where
  pub player_id : String
  pub seat_number : ℤ
  pub has_folded : Bool
  pub is_all_in : Bool
  pub is_active_in_hand : Bool

pub record StreetAdvanceResult : Type 0 where
  pub action : StreetAdvanceAction
  pub next_street : Option Street
  pub acting_player_id : Option String
  pub winning_player_id : Option String

-- `STREET_ORDER.index(current)`
abbrev pub street_index : Street → ℕ
street_index Street.pre_flop = 0
street_index Street.flop = 1
street_index Street.turn = 2
street_index Street.river = 3
street_index Street.showdown = 4

unfoldable pub next_street : Street → Option Street
next_street current = get_elem? street_order (suc (street_index current))

-- The first seat behind the reference, in the order of the seats.
first_behind : ℤ → List PlayerSeat → Option PlayerSeat
first_behind reference_seat [] = none
first_behind reference_seat (p ∷ ps) =
    if ltb_ℤ reference_seat p.seat_number then some p else first_behind reference_seat ps

unfoldable pub find_first_to_act : List PlayerSeat → ℤ → Option String
unfolding first_behind
find_first_to_act eligible reference_seat =
    let sorted_players = sorted (λ p. p.seat_number) eligible in
    elim (first_behind reference_seat sorted_players) [
      | some p ↦ some p.player_id
      | none ↦ elim sorted_players [ [] ↦ none | p ∷ ps ↦ some p.player_id ]
    ]

abbrev pub stays_in : PlayerSeat → Bool
stays_in p = not p.has_folded && p.is_active_in_hand

abbrev pub first_player_id : List PlayerSeat → Option String
first_player_id [] = none
first_player_id (p ∷ ps) = some p.player_id

-- `current_street in (RIVER, SHOWDOWN)`
abbrev pub is_last_street : Street → Bool
is_last_street Street.river = true
is_last_street Street.showdown = true
is_last_street _ = false

abbrev pub to_showdown : StreetAdvanceResult
to_showdown = record {
  action = StreetAdvanceAction.showdown;
  next_street = some Street.showdown;
  acting_player_id = none;
  winning_player_id = none;
}

-- `big_blind_seat` is read by nothing.
unfoldable pub evaluate_street_end : Street → ℤ → ℤ → List PlayerSeat → StreetAdvanceResult
evaluate_street_end current_street dealer_seat big_blind_seat players =
    let not_folded = select stays_in players in
    let can_act = select (λ p. not p.is_all_in) not_folded in
    if leb (length not_folded) 1
    then record {
      action = StreetAdvanceAction.settle_hand;
      next_street = none;
      acting_player_id = none;
      winning_player_id = first_player_id not_folded;
    }
    else if is_last_street current_street
    then to_showdown
    else if leb (length can_act) 1
    then to_showdown
    else record {
      action = StreetAdvanceAction.next_street;
      next_street = next_street current_street;
      acting_player_id = find_first_to_act can_act dealer_seat;
      winning_player_id = none;
    }
