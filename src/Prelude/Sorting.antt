-- ===== src/Prelude/Sorting.antt =====
-- Python's `sorted(xs, key=...)`: a stable sort, ascending in the key.
use mathlib.Core.Path.{◌≡◌, refl, ap, ◌∙◌}
use mathlib.Core.Logic.{inl, inr}
use mathlib.Core.List.{List, [], ◌∷◌}
use Prim.Native.Nat.{suc}
use native.Mathlib.Omega.{arith}
use poker_room_backend.Prelude.Tests.{if◌then◌else◌, Bool-cases}
use poker_room_backend.Prelude.Int.{ℤ, ◌+ℤ◌, ◌≤ℤ◌, ltb_ℤ, int_laws}
use poker_room_backend.Prelude.Lists.{length, All, All-map, IsIn, here, there}
use poker_room_backend.Prelude.Sums.{sum_by}

module _ {ℓ} {A : Type ℓ} where
  -- Before the first member with a key that is no smaller.
  unfoldable pub insert_by : (A → ℤ) → A → List A → List A
  insert_by key x [] = x ∷ []
  insert_by key x (y ∷ ys) = if ltb_ℤ (key y) (key x) then y ∷ insert_by key x ys else x ∷ y ∷ ys

  unfoldable pub sorted : (A → ℤ) → List A → List A
  sorted key [] = []
  sorted key (x ∷ xs) = insert_by key x (sorted key xs)

  -- Each member's key is at most those behind it.
  abbrev pub Ascending : (A → ℤ) → List A → Type 0
  Ascending key [] = Unit
  Ascending key (x ∷ xs) = All (λ y. key x ≤ℤ key y) xs × Ascending key xs

  pub All-insert_by {κ} :
      (P : A → Type κ) (key : A → ℤ) (x : A) (ys : List A)
      → P x
      → All P ys
      → All P (insert_by key x ys)
  unfolding insert_by
  All-insert_by P key x [] px h = (px, tt)
  All-insert_by P key x (y ∷ ys) px h = elim (Bool-cases (ltb_ℤ (key y) (key x))) [
    | inl less ↦ rw less (h.0, All-insert_by P key x ys px h.1)
    | inr more ↦ rw more (px, h)
  ]

  pub All-sorted {κ} :
      (P : A → Type κ) (key : A → ℤ) (xs : List A) → All P xs → All P (sorted key xs)
  unfolding sorted
  All-sorted P key [] h = tt
  All-sorted P key (x ∷ xs) h = All-insert_by P key x (sorted key xs) h.0 (All-sorted P key xs h.1)

  insert_by-Ascending :
      (key : A → ℤ) (x : A) (ys : List A) → Ascending key ys → Ascending key (insert_by key x ys)
  unfolding insert_by
  insert_by-Ascending key x [] h = (tt, tt)
  insert_by-Ascending key x (y ∷ ys) h = elim (Bool-cases (ltb_ℤ (key y) (key x))) [
    | inl less ↦ rw less (
      All-insert_by (λ z. key y ≤ℤ key z) key x ys (ground arith) h.0,
      insert_by-Ascending key x ys h.1,
    )
    | inr more ↦ rw more ((ground arith, All-map (λ z le. ground arith) ys h.0), h)
  ]

  pub sorted-Ascending : (key : A → ℤ) (xs : List A) → Ascending key (sorted key xs)
  unfolding sorted
  sorted-Ascending key [] = tt
  sorted-Ascending key (x ∷ xs) =
      insert_by-Ascending key x (sorted key xs) (sorted-Ascending key xs)

  sum_by-insert_by :
      (f key : A → ℤ) (x : A) (ys : List A) → sum_by f (insert_by key x ys) ≡ f x +ℤ sum_by f ys
  unfolding insert_by
  sum_by-insert_by f key x [] = refl
  sum_by-insert_by f key x (y ∷ ys) = elim (Bool-cases (ltb_ℤ (key y) (key x))) [
    | inl less ↦ rw (less, sum_by-insert_by f key x ys) (omega int_laws)
    | inr more ↦ rw more refl
  ]

  -- Sorting keeps every sum.
  pub sum_by-sorted : (f key : A → ℤ) (xs : List A) → sum_by f (sorted key xs) ≡ sum_by f xs
  unfolding sorted
  sum_by-sorted f key [] = refl
  sum_by-sorted f key (x ∷ xs) =
      sum_by-insert_by f key x (sorted key xs) ∙ ap (◌+ℤ◌ (f x)) (sum_by-sorted f key xs)

  length-insert_by :
      (key : A → ℤ) (x : A) (ys : List A) → length (insert_by key x ys) ≡ suc (length ys)
  unfolding insert_by
  length-insert_by key x [] = refl
  length-insert_by key x (y ∷ ys) = ground (arith, length-insert_by key x ys)

  pub length-sorted : (key : A → ℤ) (xs : List A) → length (sorted key xs) ≡ length xs
  unfolding sorted
  length-sorted key [] = refl
  length-sorted key (x ∷ xs) =
      length-insert_by key x (sorted key xs) ∙ ap suc (length-sorted key xs)

  insert_by-here : (key : A → ℤ) (x : A) (ys : List A) → IsIn x (insert_by key x ys)
  unfolding insert_by
  insert_by-here key x [] = here []
  insert_by-here key x (y ∷ ys) = elim (Bool-cases (ltb_ℤ (key y) (key x))) [
    | inl less ↦ rw less (there y (insert_by-here key x ys))
    | inr more ↦ rw more (here (y ∷ ys))
  ]

  insert_by-there : (key : A → ℤ) (x y : A) {ys : List A} → IsIn y ys → IsIn y (insert_by key x ys)
  unfolding insert_by
  insert_by-there key x y (here ys) = elim (Bool-cases (ltb_ℤ (key y) (key x))) [
    | inl less ↦ rw less (here (insert_by key x ys))
    | inr more ↦ rw more (there x (here ys))
  ]
  insert_by-there key x y (there z i) = elim (Bool-cases (ltb_ℤ (key z) (key x))) [
    | inl less ↦ rw less (there z (insert_by-there key x y i))
    | inr more ↦ rw more (there x (there z i))
  ]

  -- Sorting loses no member.
  pub IsIn-sorted : (key : A → ℤ) {x : A} {xs : List A} → IsIn x xs → IsIn x (sorted key xs)
  unfolding sorted
  IsIn-sorted key {x} (here xs) = insert_by-here key x (sorted key xs)
  IsIn-sorted key {x} (there y {xs} i) = insert_by-there key y x (IsIn-sorted key i)
