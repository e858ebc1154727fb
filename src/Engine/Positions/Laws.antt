-- ===== src/Engine/Positions/Laws.antt =====
-- The seats of the dealer and of the blinds are seats of the table, and the blinds differ.
use poker_room_backend.Prelude.{
  ℕ, zero, suc, ◌+◌, ◌-◌, ◌%◌, ◌≤◌, ◌<◌, ◌==◌, ℤ, ◌≡◌, ◌≢◌, ◌⊎◌, refl, sym, ap, ◌∙◌, true, false,
  some, List, [], ◌∷◌, inl, inr, arith, Bool-cases, ltb, if◌then◌else◌, length, get_elem?, All,
  IsIn,
}
use native.Mathlib.Nat.{mod-eq_of_lt, mod-lt}
use poker_room_backend.Prelude.Distinct.{DistinctBy}
use poker_room_backend.Engine.Positions.NextSeat.{
  IsNextSeat, some_inj, next_index-IsNextSeat, seat_at, index_bound, found_at, behind-IsNextSeat,
}
use poker_room_backend.Engine.Positions.{
  contains, index, seats_at, positions_from, assign_positions, rotate_positions,
}

mod_wrap : (a n : ℕ) → n ≤ a → a < n + n → a % n ≡ a - n
mod_wrap a n h k = grind arith

later :
    (x : ℤ) (xs : List ℤ) (j : ℕ) (y : ℤ)
    → All (λ s. x ≢ s) xs
    → x ≡ y
    → get_elem? xs j ≡ some y
    → ⊥
later x [] j y ne same h = ground arith
later x (z ∷ zs) zero y ne same h = ne.0 (same ∙ sym (some_inj h))
later x (z ∷ zs) (suc j) y ne same h = later x zs j y ne.1 same h

-- A seat is met at one index only.
one_index :
    (seats : List ℤ) (i j : ℕ) {x : ℤ}
    → DistinctBy (λ s. s) seats
    → get_elem? seats i ≡ some x
    → get_elem? seats j ≡ some x
    → i ≡ j
one_index [] i j d a b = ground arith
one_index (x ∷ xs) zero zero d a b = refl
one_index (x ∷ xs) zero (suc j) {x = y} d a b = absurd (later x xs j y d.0 (some_inj a) b)
one_index (x ∷ xs) (suc i) zero {x = y} d a b = absurd (later x xs i y d.0 (some_inj b) a)
one_index (x ∷ xs) (suc i) (suc j) d a b = ap suc (one_index xs i j d.1 a b)

-- What the three seats of a hand are.
pub record IsPlaced (seats : List ℤ) (d : ℕ) (t : ℤ × ℤ × ℤ) : Type 0 where
  pub dealer : get_elem? seats d ≡ some t.0
  pub dealer_in : IsIn t.0 seats
  pub small_in : IsIn t.1 seats
  pub big_in : IsIn t.2 seats
  pub heads_up : length seats ≡ 2 → t.1 ≡ t.0
  pub small_next : length seats ≢ 2 → IsNextSeat seats t.0 t.1
  pub big_next : IsNextSeat seats t.1 t.2
  pub blinds_differ : DistinctBy (λ s. s) seats → 2 ≤ length seats → t.1 ≢ t.2

seats_at-eq :
    (seats : List ℤ) (d s b : ℕ) {x y z : ℤ}
    → get_elem? seats d ≡ some x
    → get_elem? seats s ≡ some y
    → get_elem? seats b ≡ some z
    → seats_at seats d s b ≡ some (x, y, z)
seats_at-eq seats d s b ex ey ez = rw (seats_at, ex) (rw (seats_at, ey) (rw (seats_at, ez) refl))

-- An index that is past the end by less than a round.
round_cases : (a n : ℕ) → a < n + n → ((a < n) × (a % n ≡ a)) ⊎ ((n ≤ a) × (a % n ≡ a - n))
round_cases a n h = elim (Bool-cases (ltb a n)) [
  | inl inside ↦ inl (ground arith, mod-eq_of_lt (ground arith))
  | inr outside ↦ inr (ground arith, mod_wrap a n (ground arith) h)
]

-- The index behind is another one, and so is the one behind that.
next_differs : (d n : ℕ) → d < n → 2 ≤ n → d ≢ (d + 1) % n
next_differs d n lt two e = elim (round_cases (d + 1) n (omega arith)) [
  | inl (_, same) ↦ omega (arith, e ∙ same)
  | inr (past, wrap) ↦ omega (arith, e ∙ wrap)
]

after_next_differs : (d n : ℕ) → d < n → 2 ≤ n → (d + 1) % n ≢ (d + 2) % n
after_next_differs d n lt two e = elim (round_cases (d + 1) n (omega arith)) [
  | inl (inside, same) ↦ elim (round_cases (d + 2) n (omega arith)) [
    | inl (_, same') ↦ omega (arith, sym same ∙ e ∙ same')
    | inr (_, wrap) ↦ omega (arith, sym same ∙ e ∙ wrap)
  ]
  | inr (past, wrap) ↦ elim (round_cases (d + 2) n (omega arith)) [
    | inl (inside, _) ↦ omega arith
    | inr (_, wrap') ↦ omega (arith, sym wrap ∙ e ∙ wrap')
  ]
]

-- One behind the index behind is two behind.
mod_step : (d n : ℕ) → d < n → ((d + 1) % n + 1) % n ≡ (d + 2) % n
mod_step d n lt = grind arith

module _ (seats : List ℤ) (d : ℕ) (lt : d < length seats) where
  -- The seats at the index of the dealer and at two more.
  placed :
      (s b : ℕ)
      → s < length seats
      → b < length seats
      → (length seats ≡ 2 → s ≡ d)
      → (length seats ≢ 2 → s ≡ (d + 1) % length seats)
      → b ≡ (s + 1) % length seats
      → (2 ≤ length seats → s ≢ b)
      → (t : ℤ × ℤ × ℤ) × (seats_at seats d s b ≡ some t) × IsPlaced seats d t
  placed s b ls lb heads_up small big differ =
      let (x, ex, ix) = seat_at seats d lt in
      let (y, ey, iy) = seat_at seats s ls in
      let (z, ez, iz) = seat_at seats b lb in
      (
        (x, y, z),
        seats_at-eq seats d s b ex ey ez,
        record {
          dealer = ex;
          dealer_in = ix;
          small_in = iy;
          big_in = iz;
          heads_up = λ two. some_inj (sym ey ∙ ap (get_elem? seats) (heads_up two) ∙ ex);
          small_next = λ more.
              next_index-IsNextSeat seats d lt ex (ap (get_elem? seats) (sym (small more)) ∙ ey);
          big_next = next_index-IsNextSeat seats s ls ey (ap (get_elem? seats) (sym big) ∙ ez);
          blinds_differ = λ distinct enough same.
              differ enough (one_index seats s b distinct (ey ∙ ap some same) ez);
        },
      )

  nonempty : 0 < length seats
  nonempty = omega (arith, lt)

  positions_from-IsPlaced : (t : ℤ × ℤ × ℤ) × (positions_from seats d ≡ some t) × IsPlaced seats d t
  unfolding positions_from
  positions_from-IsPlaced = elim (Bool-cases (length seats == 2)) [
    | inl two ↦
        (let (t, e, p) =
            placed d ((d + 1) % length seats) lt (mod-lt (d + 1) nonempty) (λ _. refl)
              (λ more. absurd (more (is_two two))) refl (next_differs d (length seats) lt) in
          (t, rw (positions_from, two) e, p))
    | inr more ↦
        (let (t, e, p) =
            placed ((d + 1) % length seats) ((d + 2) % length seats) (mod-lt (d + 1) nonempty)
              (mod-lt (d + 2) nonempty) (λ two. absurd (no_two two more)) (λ _. refl)
              (sym (mod_step d (length seats) lt)) (after_next_differs d (length seats) lt) in
          (t, rw (positions_from, more) e, p))
  ]
    where
      no_two : length seats ≡ 2 → (length seats == 2) ≡ false → ⊥
      no_two e f = ground arith

      is_two : (length seats == 2) ≡ true → length seats ≡ 2
      is_two e = ground arith

-- The index that the first hand starts from.
abbrev pub first_index : List ℤ → ℤ → ℕ
first_index seats dealer = if contains dealer seats then index dealer seats else 0

-- The index that the next hand starts from.
abbrev pub next_index : List ℤ → ℤ → ℕ
next_index seats dealer =
    if contains dealer seats then (index dealer seats + 1) % length seats else 0

-- The first hand of a table with a seat or more has a dealer, a small blind and a big blind, each on a
-- seat of the table. The dealer is on the wanted seat if it is there. The big blind is on the seat behind
-- the small blind; with two seats the small blind is on the dealer's seat, else on the seat behind it.
-- Where no seat is listed twice and there are two or more, the blinds are on different seats.
pub assign_positions_lem :
    (seats : List ℤ) (dealer : ℤ)
    → 0 < length seats
    → (t : ℤ × ℤ × ℤ) × (assign_positions seats dealer ≡ some t)
      × IsPlaced seats (first_index seats dealer) t
      × (contains dealer seats ≡ true → t.0 ≡ dealer)
unfolding assign_positions
assign_positions_lem seats dealer some_seat =
    let (t, e, p) =
      positions_from-IsPlaced seats (first_index seats dealer)
        (bound (Bool-cases (contains dealer seats))) in
    (
      t,
      e,
      p,
      λ there'.
          some_inj
            (sym p.dealer ∙ ap (get_elem? seats) (at_dealer there') ∙ found_at dealer seats there'),
    )
  where
    bound :
        (contains dealer seats ≡ true) ⊎ (contains dealer seats ≡ false)
        → first_index seats dealer < length seats
    bound (inl yes') = rw yes' (index_bound dealer seats yes')
    bound (inr no') = rw no' some_seat

    at_dealer : contains dealer seats ≡ true → first_index seats dealer ≡ index dealer seats
    at_dealer e = rw e refl

-- The next hand of a table with a seat or more has its dealer on the seat behind the last dealer's in the
-- list, round its end, or on the first seat of the list if the last dealer's seat is gone. The big blind
-- is on the seat behind the small blind; with two seats the small blind is on the dealer's seat, else on
-- the seat behind it. Where no seat is listed twice and there are two or more, the blinds differ.
pub rotate_positions_lem :
    (seats : List ℤ) (dealer : ℤ)
    → 0 < length seats
    → (t : ℤ × ℤ × ℤ) × (rotate_positions seats dealer ≡ some t)
      × IsPlaced seats (next_index seats dealer) t
      × (contains dealer seats ≡ true → IsNextSeat seats dealer t.0)
      × (contains dealer seats ≡ false → get_elem? seats 0 ≡ some t.0)
unfolding rotate_positions
rotate_positions_lem seats dealer some_seat =
    let (t, e, p) =
      positions_from-IsPlaced seats (next_index seats dealer)
        (bound (Bool-cases (contains dealer seats))) in
    (
      t,
      e,
      p,
      (λ listed.
          behind-IsNextSeat seats dealer listed
            (ap (get_elem? seats) (sym (at_next listed)) ∙ p.dealer)),
      λ gone. ap (get_elem? seats) (sym (at_first gone)) ∙ p.dealer,
    )
  where
    bound :
        (contains dealer seats ≡ true) ⊎ (contains dealer seats ≡ false)
        → next_index seats dealer < length seats
    bound (inl yes') = rw yes' (mod-lt (index dealer seats + 1) some_seat)
    bound (inr no') = rw no' some_seat

    at_next :
        contains dealer seats ≡ true
        → next_index seats dealer ≡ (index dealer seats + 1) % length seats
    at_next e = rw e refl

    at_first : contains dealer seats ≡ false → next_index seats dealer ≡ 0
    at_first e = rw e refl
