-- ===== src/Engine/Positions.antt =====
-- services/game-service/app/domain/engine/positions.py: the seats of the dealer and of the blinds.
-- `none` is the fault of an index or of a remainder by 0 on an empty list.
pub mod NextSeat
pub mod Laws
use poker_room_backend.Prelude.{
  ℕ, suc, ◌+◌, ◌%◌, ℤ, Bool, false, ◌||◌, Option, none, some, List, [], ◌∷◌, eqb_ℤ, ◌==◌,
  if◌then◌else◌, length, get_elem?,
}

-- `seat in seats`
unfoldable pub contains : ℤ → List ℤ → Bool
contains seat [] = false
contains seat (x ∷ xs) = eqb_ℤ x seat || contains seat xs

-- `seats.index(seat)`, for a seat that is there
unfoldable pub index : ℤ → List ℤ → ℕ
index seat [] = 0
index seat (x ∷ xs) = if eqb_ℤ x seat then 0 else suc (index seat xs)

-- The seats at three indices.
abbrev pub seats_at : List ℤ → ℕ → ℕ → ℕ → Option (ℤ × ℤ × ℤ)
seats_at seats d s b = elim (get_elem? seats d) [
  | none ↦ none
  | some dealer ↦ elim (get_elem? seats s) [
    | none ↦ none
    | some small ↦ elim (get_elem? seats b) [ none ↦ none | some big ↦ some (dealer, small, big) ]
  ]
]

-- The seats for a dealer's index: heads-up the dealer has the small blind.
unfoldable pub positions_from : List ℤ → ℕ → Option (ℤ × ℤ × ℤ)
positions_from seats d =
    let n = length seats in
    if n == 2
    then seats_at seats d d ((d + 1) % n)
    else seats_at seats d ((d + 1) % n) ((d + 2) % n)

unfoldable pub assign_positions : List ℤ → ℤ → Option (ℤ × ℤ × ℤ)
assign_positions active_seats starting_dealer =
    positions_from active_seats
      (if contains starting_dealer active_seats then index starting_dealer active_seats else 0)

unfoldable pub rotate_positions : List ℤ → ℤ → Option (ℤ × ℤ × ℤ)
rotate_positions active_seats current_dealer = positions_from active_seats (
    if contains current_dealer active_seats
    then (index current_dealer active_seats + 1) % length active_seats
    else 0)
