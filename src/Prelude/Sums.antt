-- ===== src/Prelude/Sums.antt =====
-- Sums of integers over lists, Python's `sum(...)`.
use mathlib.Core.Path.{◌≡◌, refl, sym, ap, subst}
use mathlib.Core.Logic.{inl, inr}
use mathlib.Core.Bool.{Bool}
use mathlib.Core.Option.{some}
use mathlib.Core.List.{List, [], ◌∷◌, ◌++◌, map}
use native.Mathlib.Omega.{arith}
use poker_room_backend.Prelude.Tests.{Bool-cases}
use poker_room_backend.Prelude.Int.{ℤ, pos, ◌+ℤ◌, ◌≤ℤ◌, max_ℤ, int_laws}
use poker_room_backend.Prelude.Lists.{All, All-map, find_first, change_first}

module _ {ℓ} {A : Type ℓ} where
  -- `sum(f(x) for x in xs)`
  abbrev pub sum_by : (A → ℤ) → List A → ℤ
  sum_by f [] = pos 0
  sum_by f (x ∷ xs) = f x +ℤ sum_by f xs

  pub sum_by-append :
      (f : A → ℤ) (xs ys : List A) → sum_by f (xs ++ ys) ≡ sum_by f xs +ℤ sum_by f ys
  sum_by-append f [] ys = omega int_laws
  sum_by-append f (x ∷ xs) ys = rw (sum_by-append f xs ys) (omega int_laws)

  pub sum_by_nonneg : (f : A → ℤ) (xs : List A) → All (λ x. pos 0 ≤ℤ f x) xs → pos 0 ≤ℤ sum_by f xs
  sum_by_nonneg f [] h = omega int_laws
  sum_by_nonneg f (x ∷ xs) h = omega (int_laws, sum_by_nonneg f xs h.1)

pub sum_by-map {ℓ κ} :
    {A : Type ℓ} {B : Type κ} (f : A → B) (g : B → ℤ) (xs : List A)
    → sum_by g (map f xs) ≡ sum_by (λ x. g (f x)) xs
sum_by-map f g [] = refl
sum_by-map f g (x ∷ xs) = ap (◌+ℤ◌ (g (f x))) (sum_by-map f g xs)

-- `max(xs, default=d)`
abbrev pub max_default : ℤ → List ℤ → ℤ
max_default d [] = d
max_default d (x ∷ []) = x
max_default d (x ∷ y ∷ ys) = max_ℤ x (max_default d (y ∷ ys))

pub max_default_bound : (d : ℤ) (xs : List ℤ) → All (λ x. x ≤ℤ max_default d xs) xs
max_default_bound d [] = tt
max_default_bound d (x ∷ []) = (omega arith, tt)
max_default_bound d (x ∷ y ∷ ys) =
    (ground arith, All-map (λ z h. ground arith) (y ∷ ys) (max_default_bound d (y ∷ ys)))

module _ {ℓ} {A : Type ℓ} where
  some_inj : {x y : A} → some x ≡ some y → y ≡ x
  some_inj e = cc

  -- A column that the change moves by `d` at the member that it finds.
  pub sum_by-change_first :
      (f : A → ℤ) (d : ℤ) (p : A → Bool) (change : A → A) (xs : List A) {x : A}
      → f (change x) ≡ f x +ℤ d
      → find_first p xs ≡ some x
      → sum_by f (change_first p change xs) ≡ sum_by f xs +ℤ d
  unfolding change_first
  sum_by-change_first f d p change [] moved found = ground arith
  sum_by-change_first f d p change (y ∷ ys) {x} moved found = elim (Bool-cases (p y)) [
    | inl it ↦
        (let same = some_inj (rw it at found) in
          rw (it, subst (λ z. f (change z) ≡ f z +ℤ d) same moved) (omega int_laws))
    | inr other ↦
        rw (other, sum_by-change_first f d p change ys moved (rw other at found)) (omega int_laws)
  ]

  -- A column that it leaves alone.
  pub sum_by-change_first_kept :
      (f : A → ℤ) (p : A → Bool) (change : A → A) (xs : List A)
      → ((x : A) → f (change x) ≡ f x)
      → sum_by f (change_first p change xs) ≡ sum_by f xs
  unfolding change_first
  sum_by-change_first_kept f p change [] keep = refl
  sum_by-change_first_kept f p change (y ∷ ys) keep = elim (Bool-cases (p y)) [
    | inl it ↦ rw (it, keep y) refl
    | inr other ↦ rw (other, sum_by-change_first_kept f p change ys keep) refl
  ]

  pub found-le-sum :
      (f : A → ℤ) (p : A → Bool) (xs : List A) {x : A}
      → All (λ y. pos 0 ≤ℤ f y) xs
      → find_first p xs ≡ some x
      → f x ≤ℤ sum_by f xs
  found-le-sum f p [] h found = ground arith
  found-le-sum f p (y ∷ ys) {x} h found = elim (Bool-cases (p y)) [
    | inl it ↦
        subst (λ z. f z ≤ℤ f y +ℤ sum_by f ys) (sym (some_inj (rw it at found)))
          (at_most (f y) (sum_by f ys) (sum_by_nonneg f ys h.1))
    | inr other ↦
        further (f x) (f y) (sum_by f ys) h.0 (found-le-sum f p ys h.1 (rw other at found))
  ]
    where
      at_most : (a b : ℤ) → pos 0 ≤ℤ b → a ≤ℤ a +ℤ b
      at_most a b h = omega int_laws

      further : (a b c : ℤ) → pos 0 ≤ℤ b → a ≤ℤ c → a ≤ℤ b +ℤ c
      further a b c h le = omega int_laws
