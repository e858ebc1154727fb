-- ===== src/Engine/Positions/NextSeat.antt =====
-- The seat behind another one of a list of seats, round its end: what an index and one more, modulo the
-- length, come to (services/game-service/app/domain/engine/positions.py).
use poker_room_backend.Prelude.{
  ℕ, zero, suc, ◌+◌, ◌%◌, ◌<◌, ℤ, ◌≡◌, refl, sym, ap, ◌∙◌, true, false, some, List, [], ◌∷◌, inl,
  inr, arith, Bool-cases, ltb, subst, eqb_ℤ, eqb_ℤ_iff, length, get_elem?, IsIn, here, there,
}
use native.Mathlib.Nat.{mod-eq_of_lt}
use poker_room_backend.Engine.Positions.{contains, index}

-- The second seat follows the first one in the list.
pub data IsBehind : List ℤ → ℤ → ℤ → Type 0 where
  at_head : {x y : ℤ} {xs : List ℤ} → IsBehind (x ∷ y ∷ xs) x y
  further : {x y z : ℤ} {xs : List ℤ} → IsBehind xs x y → IsBehind (z ∷ xs) x y

pub data IsLast : List ℤ → ℤ → Type 0 where
  alone : {x : ℤ} → IsLast (x ∷ []) x
  further : {x z : ℤ} {xs : List ℤ} → IsLast xs x → IsLast (z ∷ xs) x

-- The second seat is the next one: behind the first one, or the head of the list where the first one is
-- its last.
pub data IsNextSeat (seats : List ℤ) (x y : ℤ) : Type 0 where
  behind : IsBehind seats x y → IsNextSeat seats x y
  around : IsLast seats x → get_elem? seats 0 ≡ some y → IsNextSeat seats x y

pub some_inj : {a b : ℤ} → some a ≡ some b → a ≡ b
some_inj e = cc

at_index-IsBehind :
    (seats : List ℤ) (i : ℕ) {x y : ℤ}
    → get_elem? seats i ≡ some x
    → get_elem? seats (suc i) ≡ some y
    → IsBehind seats x y
at_index-IsBehind [] i a b = ground arith
at_index-IsBehind (z ∷ []) zero a b = ground arith
at_index-IsBehind (z ∷ w ∷ zs) zero {x} {y} a b =
    subst (λ p. IsBehind (z ∷ w ∷ zs) p y) (some_inj a)
      (subst (λ q. IsBehind (z ∷ w ∷ zs) z q) (some_inj b) IsBehind.at_head)
at_index-IsBehind (z ∷ zs) (suc i) a b = IsBehind.further (at_index-IsBehind zs i a b)

at_index-IsLast :
    (seats : List ℤ) (i : ℕ) {x : ℤ}
    → get_elem? seats i ≡ some x
    → suc i ≡ length seats
    → IsLast seats x
at_index-IsLast [] i a b = ground arith
at_index-IsLast (z ∷ []) zero {x} a b = subst (λ p. IsLast (z ∷ []) p) (some_inj a) IsLast.alone
at_index-IsLast (z ∷ w ∷ zs) zero a b = absurd (omega (arith, b))
at_index-IsLast (z ∷ zs) (suc i) a b = IsLast.further (at_index-IsLast zs i a (omega (arith, b)))

-- The seats at an index and at the next one.
pub next_index-IsNextSeat :
    (seats : List ℤ) (i : ℕ) {x y : ℤ}
    → i < length seats
    → get_elem? seats i ≡ some x
    → get_elem? seats ((i + 1) % length seats) ≡ some y
    → IsNextSeat seats x y
next_index-IsNextSeat seats i {x} {y} lt a b = elim (Bool-cases (ltb (i + 1) (length seats))) [
  | inl inside ↦
      IsNextSeat.behind (at_index-IsBehind seats i a (sym (ap (get_elem? seats) (step inside)) ∙ b))
  | inr past ↦
      IsNextSeat.around (at_index-IsLast seats i a (ground arith))
        (sym (ap (get_elem? seats) (wrap past)) ∙ b)
]
  where
    step : ltb (i + 1) (length seats) ≡ true → (i + 1) % length seats ≡ suc i
    step h = mod-eq_of_lt (ground arith) ∙ omega arith

    wrap : ltb (i + 1) (length seats) ≡ false → (i + 1) % length seats ≡ 0
    wrap h = ap (λ n. n % length seats) (end h) ∙ itself (length seats) (omega (arith, lt))
      where
        end : ltb (i + 1) (length seats) ≡ false → i + 1 ≡ length seats
        end h = ground arith

        itself : (n : ℕ) → 0 < n → n % n ≡ 0
        itself n h = grind arith

pub seat_at :
    (seats : List ℤ) (i : ℕ)
    → i < length seats
    → (x : ℤ) × (get_elem? seats i ≡ some x) × IsIn x seats
seat_at [] i h = absurd (omega arith)
seat_at (x ∷ xs) zero h = (x, refl, here xs)
seat_at (x ∷ xs) (suc i) h = (let (y, e, at) = seat_at xs i (omega arith) in (y, e, there x at))

pub index_bound :
    (seat : ℤ) (seats : List ℤ) → contains seat seats ≡ true → index seat seats < length seats
unfolding contains index
index_bound seat [] h = ground arith
index_bound seat (x ∷ xs) h = elim (Bool-cases (eqb_ℤ x seat)) [
  | inl it ↦ rw it (omega arith)
  | inr other ↦ rw other (suc_lt (index_bound seat xs (rw other at h)))
]
  where
    suc_lt : {a b : ℕ} → a < b → suc a < suc b
    suc_lt h = omega arith

pub found_at :
    (seat : ℤ) (seats : List ℤ)
    → contains seat seats ≡ true
    → get_elem? seats (index seat seats) ≡ some seat
unfolding contains index
found_at seat [] h = ground arith
found_at seat (x ∷ xs) h = elim (Bool-cases (eqb_ℤ x seat)) [
  | inl it ↦ rw it (ap some ((eqb_ℤ_iff x seat).0 it))
  | inr other ↦ rw other (found_at seat xs (rw other at h))
]

-- The seat at the index behind that of a listed seat.
pub behind-IsNextSeat :
    (seats : List ℤ) (x : ℤ) {y : ℤ}
    → contains x seats ≡ true
    → get_elem? seats ((index x seats + 1) % length seats) ≡ some y
    → IsNextSeat seats x y
behind-IsNextSeat seats x listed =
    next_index-IsNextSeat seats (index x seats) (index_bound x seats listed)
      (found_at x seats listed)
