-- ===== src/Scenario/Seats.antt =====
-- The seats of the blinds of a scenario, clockwise from the dealer
-- (services/game-service/app/domain/scenario_runner.py).
use native.Mathlib.Nat.{mod-lt}
use poker_room_backend.Prelude.{
  ◌<◌, length-map, ℕ, zero, suc, ◌+◌, ◌%◌, ℤ, ◌≡◌, ◌∙◌, true, some, List, [], ◌∷◌, map, arith, inl,
  inr, Bool-cases, eqb_ℤ, eqb_ℤ_iff, refl, length, get_elem?, if◌then◌else◌,
}
use poker_room_backend.Prelude.Sorting.{sorted, length-sorted}
use poker_room_backend.Engine.Positions.{contains, index}
use poker_room_backend.Engine.Positions.NextSeat.{IsNextSeat, some_inj, seat_at, behind-IsNextSeat}
use poker_room_backend.Scenario.{PlayerSetup, HandScenario, seat_left_of, scenario_seats}

-- The seats of the players, from the lowest on.
abbrev pub seats_in_order : List PlayerSetup → List ℤ
seats_in_order players = sorted (λ s. s) (map (λ p. p.seat) players)

-- The small blind is behind the dealer's seat if that is taken, the big blind behind the small blind, and
-- the first player to act behind the big blind.
pub record IsClockwise (s : HandScenario) (small big first : ℤ) : Type 0 where
  pub small_next :
      contains s.dealer_seat (seats_in_order s.players) ≡ true
      → IsNextSeat (seats_in_order s.players) s.dealer_seat small
  pub big_next : IsNextSeat (seats_in_order s.players) small big
  pub first_next : IsNextSeat (seats_in_order s.players) big first

at_index-contains :
    (seats : List ℤ) (i : ℕ) {y : ℤ} → get_elem? seats i ≡ some y → contains y seats ≡ true
unfolding contains
at_index-contains [] i h = ground arith
at_index-contains (x ∷ xs) zero {y} h = rw ((eqb_ℤ_iff x y).1 (some_inj h)) refl
at_index-contains (x ∷ xs) (suc i) {y} h = elim (Bool-cases (eqb_ℤ x y)) [
  | inl it ↦ rw it refl
  | inr other ↦ rw other (at_index-contains xs i h)
]

seat_left_of-IsNextSeat :
    (seat : ℤ) (players : List PlayerSetup) {y : ℤ}
    → contains seat (seats_in_order players) ≡ true
    → seat_left_of seat players ≡ some y
    → IsNextSeat (seats_in_order players) seat y
unfolding seat_left_of
seat_left_of-IsNextSeat seat players listed h =
    behind-IsNextSeat (seats_in_order players) seat listed (rw listed at h)

-- The seat to the left is a seat of the table.
seat_left_of-contains :
    (seat : ℤ) (players : List PlayerSetup) {y : ℤ}
    → seat_left_of seat players ≡ some y
    → contains y (seats_in_order players) ≡ true
unfolding seat_left_of
seat_left_of-contains seat players h = at_index-contains (seats_in_order players) _ h

seat_left_of-some :
    (seat : ℤ) (players : List PlayerSetup)
    → 0 < length players
    → (y : ℤ) × (seat_left_of seat players ≡ some y)
unfolding seat_left_of
seat_left_of-some seat players some_player =
    let seats = seats_in_order players in
    let (y, e, _) =
      seat_at seats (((if contains seat seats then index seat seats else 0) + 1) % length seats) (
        mod-lt ((if contains seat seats then index seat seats else 0) + 1) (
          as_many (
            length-sorted (λ s. s) (map (λ p. p.seat) players)
            ∙ length-map (λ p. p.seat) players))) in
    (y, e)
  where
    as_many : length (seats_in_order players) ≡ length players → 0 < length (seats_in_order players)
    as_many e = rw e some_player

-- A table with a player has its blinds.
pub scenario_seats-some :
    (s : HandScenario)
    → 0 < length s.players
    → (seats : ℤ × ℤ × ℤ) × (scenario_seats s ≡ some seats)
unfolding scenario_seats
scenario_seats-some s some_player =
    let (small, e) = seat_left_of-some s.dealer_seat s.players some_player in
    let (big, e') = seat_left_of-some small s.players some_player in
    let (first, e'') = seat_left_of-some big s.players some_player in
    ((small, big, first), rw (scenario_seats, e) (rw e' (rw e'' refl)))

pub scenario_seats-IsClockwise :
    (s : HandScenario) (seats : ℤ × ℤ × ℤ)
    → scenario_seats s ≡ some seats
    → IsClockwise s seats.0 seats.1 seats.2
unfolding scenario_seats
scenario_seats-IsClockwise s (small, big, first) h =
    let (left, behind, last) = each h in
    record {
      small_next = λ listed. seat_left_of-IsNextSeat s.dealer_seat s.players listed left;
      big_next =
          seat_left_of-IsNextSeat small s.players
            (seat_left_of-contains s.dealer_seat s.players left) behind;
      first_next =
          seat_left_of-IsNextSeat big s.players (seat_left_of-contains small s.players behind) last;
    }
  where
    each :
        scenario_seats s ≡ some (small, big, first)
        → (seat_left_of s.dealer_seat s.players ≡ some small)
          × (seat_left_of small s.players ≡ some big)
          × (seat_left_of big s.players ≡ some first)
    each h = ground arith
