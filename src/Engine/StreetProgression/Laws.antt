-- ===== src/Engine/StreetProgression/Laws.antt =====
-- What follows a street, and who acts first on it.
use poker_room_backend.Prelude.{
  suc, ◌≤◌, ◌<◌, ℤ, ◌≤ℤ◌, ◌<ℤ◌, ◌≡◌, ◌≢◌, ◌⊎◌, inl, inr, refl, String, true, false, not, Option,
  none, some, List, [], ◌∷◌, arith, Bool-cases, leb, ltb_ℤ, length, select, All, All-map, All-at,
  All-IsIn, IsIn, here, there,
}
use poker_room_backend.Prelude.Sorting.{
  sorted, Ascending, All-sorted, sorted-Ascending, length-sorted, IsIn-sorted,
}
use poker_room_backend.Domain.Constants.{Street, StreetAdvanceAction}
use poker_room_backend.Engine.StreetProgression.{
  PlayerSeat, StreetAdvanceResult, street_index, next_street, first_behind, find_first_to_act,
  stays_in, first_player_id, is_last_street, to_showdown, evaluate_street_end,
}

-- The seat that acts first from a reference: the next one behind it, or, with none behind it, the
-- lowest one.
abbrev pub IsFirstFrom : ℤ → List PlayerSeat → PlayerSeat → Type 0
IsFirstFrom reference_seat ps p =
    ((reference_seat <ℤ p.seat_number)
      × All (λ q. (q.seat_number ≤ℤ reference_seat) ⊎ (p.seat_number ≤ℤ q.seat_number)) ps)
    ⊎ (All (λ q. q.seat_number ≤ℤ reference_seat) ps × All (λ q. p.seat_number ≤ℤ q.seat_number) ps)

first_behind_lem :
    (r : ℤ) (ps : List PlayerSeat)
    → Ascending (λ p. p.seat_number) ps
    → ((first_behind r ps ≡ none) × All (λ q. q.seat_number ≤ℤ r) ps)
      ⊎ ((p : PlayerSeat) × (first_behind r ps ≡ some p)
          × IsIn p ps
          × (r <ℤ p.seat_number)
          × All (λ q. (q.seat_number ≤ℤ r) ⊎ (p.seat_number ≤ℤ q.seat_number)) ps)
unfolding first_behind
first_behind_lem r [] h = inl (refl, tt)
first_behind_lem r (p ∷ ps) h = elim (Bool-cases (ltb_ℤ r p.seat_number)) [
  | inl behind ↦ inr (
    p,
    rw behind refl,
    here ps,
    ground arith,
    (inr (omega arith), All-map (λ q le. inr le) ps h.0),
  )
  | inr before ↦ elim (first_behind_lem r ps h.1) [
    | inl (none_behind, below) ↦ inl (rw before none_behind, (ground arith, below))
    | inr (q, e, at, above, least) ↦
        inr (q, rw before e, there p at, above, (inl (ground arith), least))
  ]
]

from_sorted :
    (P : PlayerSeat → Type 0) (ps : List PlayerSeat)
    → All P (sorted (λ p. p.seat_number) ps)
    → All P ps
from_sorted P ps h =
    All-map (λ q at. All-at P h (IsIn-sorted (λ p. p.seat_number) at)) ps (All-IsIn ps)

sorted-IsIn :
    {p : PlayerSeat} (ps : List PlayerSeat) → IsIn p (sorted (λ p. p.seat_number) ps) → IsIn p ps
sorted-IsIn ps at =
    All-at (λ q. IsIn q ps) (All-sorted (λ q. IsIn q ps) (λ p. p.seat_number) ps (All-IsIn ps)) at

lowest :
    (ss : List PlayerSeat)
    → 0 < length ss
    → Ascending (λ p. p.seat_number) ss
    → (p : PlayerSeat) × ((elim ss as (λ _. Option String) [ [] ↦ none | q ∷ _ ↦ some q.player_id ])
        ≡ some p.player_id)
      × IsIn p ss
      × All (λ q. p.seat_number ≤ℤ q.seat_number) ss
lowest [] some_seat h = ground arith
lowest (p ∷ ss) some_seat h = (p, refl, here ss, (ground arith, h.0))

-- Of one or more seats the first to act is found: it is one of them, the next behind the reference
-- seat, or the lowest one when no seat is behind the reference.
pub find_first_to_act_lem :
    (ps : List PlayerSeat) (reference_seat : ℤ)
    → 0 < length ps
    → (p : PlayerSeat) × (find_first_to_act ps reference_seat ≡ some p.player_id)
      × IsIn p ps
      × IsFirstFrom reference_seat ps p
unfolding find_first_to_act
find_first_to_act_lem ps r some_seat =
    let key : PlayerSeat → ℤ = λ p. p.seat_number in
    elim (first_behind_lem r (sorted key ps) (sorted-Ascending key ps)) [
      | inl (none_behind, below) ↦
          let (p, e, at, least) =
            lowest (sorted key ps) (rw (length-sorted key ps) some_seat)
              (sorted-Ascending key ps) in
          (
            p,
            rw (find_first_to_act, none_behind) e,
            sorted-IsIn ps at,
            inr (from_sorted _ ps below, from_sorted _ ps least),
          )
      | inr (p, e, at, above, least) ↦ (
        p,
        rw (find_first_to_act, e) refl,
        sorted-IsIn ps at,
        inl (above, from_sorted _ ps least),
      )
    ]

-- The players who are still in the hand, and those of them who can still bet.
abbrev pub still_in : List PlayerSeat → List PlayerSeat
still_in ps = select stays_in ps

abbrev pub able : List PlayerSeat → List PlayerSeat
able ps = select (λ p. not p.is_all_in) (still_in ps)

-- What `evaluate_street_end` owes for each action that it returns.
abbrev pub IsStreetEnd :
    Street → ℤ → List PlayerSeat → StreetAdvanceResult → StreetAdvanceAction → Type 0
IsStreetEnd current dealer_seat ps res StreetAdvanceAction.settle_hand =
    (length (still_in ps) ≤ 1)
    × (res.winning_player_id ≡ first_player_id (still_in ps))
    × (res.acting_player_id ≡ none)
IsStreetEnd current dealer_seat ps res StreetAdvanceAction.showdown =
    (1 < length (still_in ps))
    × ((length (able ps) ≤ 1) ⊎ (is_last_street current ≡ true))
    × (res ≡ to_showdown)
IsStreetEnd current dealer_seat ps res StreetAdvanceAction.next_street =
    (1 < length (able ps))
    × ((s : Street) × (res.next_street ≡ some s)
        × (street_index s ≡ suc (street_index current))
        × (s ≢ Street.showdown))
    × ((p : PlayerSeat) × (res.acting_player_id ≡ some p.player_id)
        × IsIn p (able ps)
        × IsFirstFrom dealer_seat (able ps) p)
    × (res.winning_player_id ≡ none)

next_street_lem :
    (current : Street)
    → is_last_street current ≡ false
    → (s : Street) × (next_street current ≡ some s)
      × (street_index s ≡ suc (street_index current))
      × (s ≢ Street.showdown)
unfolding next_street
next_street_lem Street.pre_flop h = (Street.flop, refl, refl, ground arith)
next_street_lem Street.flop h = (Street.turn, refl, refl, ground arith)
next_street_lem Street.turn h = (Street.river, refl, refl, ground arith)
next_street_lem Street.river h = ground arith
next_street_lem Street.showdown h = ground arith

-- With at most one player left the hand is settled for that player. Otherwise it goes to the showdown
-- when the river has been played or at most one player can still bet. Otherwise the next street is
-- the successor of the current one, short of the showdown, and opens with the first player behind the
-- dealer who can bet.
pub evaluate_street_end_lem :
    (current : Street) (dealer_seat big_blind_seat : ℤ) (ps : List PlayerSeat)
    → let res = evaluate_street_end current dealer_seat big_blind_seat ps in
      IsStreetEnd current dealer_seat ps res res.action
unfolding evaluate_street_end
evaluate_street_end_lem current dealer_seat big_blind_seat ps =
    elim (Bool-cases (leb (length (still_in ps)) 1)) [
      | inl alone ↦ rw alone (ground arith, refl, refl)
      | inr several ↦ elim (Bool-cases (is_last_street current)) [
        | inl last' ↦ rw (several, last') (ground arith, inr last', refl)
        | inr more ↦ elim (Bool-cases (leb (length (able ps)) 1)) [
          | inl stuck ↦ rw (several, more, stuck) (ground arith, inl (ground arith), refl)
          | inr free ↦
              rw (several, more, free)
                (
                  ground arith,
                  next_street_lem current more,
                  find_first_to_act_lem (able ps) dealer_seat (ground arith),
                  refl,
                )
        ]
      ]
    ]
