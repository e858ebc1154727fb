-- ===== src/Prelude/Distinct.antt =====
-- Lists whose members differ in a column, as a UNIQUE constraint has it.
use mathlib.Core.Path.{◌≡◌, refl, sym, ◌∙◌}
use mathlib.Core.Logic.{◌≢◌, inl, inr}
use mathlib.Core.Bool.{Bool}
use mathlib.Core.Option.{some}
use mathlib.Core.List.{List, [], ◌∷◌, ◌++◌}
use Prim.Native.String.{String}
use text.Mathlib.Text.{◌==◌ as str_eq}
use text.Mathlib.TextEquality.{eq_iff}
use poker_room_backend.Prelude.Tests.{Bool-cases}
use poker_room_backend.Prelude.Int.{ℤ, ltb_ℤ}
use poker_room_backend.Prelude.Lists.{
  All, All-map, All-select, All-change_first, All-at, All-append, IsIn, here, there, find_first,
  select, change_first,
}
use poker_room_backend.Prelude.Sorting.{sorted, insert_by, All-insert_by}

module _ {ℓ} {A : Type ℓ} {B : Type 0} where
  abbrev pub DistinctBy : (A → B) → List A → Type 0
  DistinctBy key [] = Unit
  DistinctBy key (x ∷ xs) = All (λ y. key x ≢ key y) xs × DistinctBy key xs

  DistinctBy-insert_by :
      (key : A → B) (rank : A → ℤ) (x : A) (ys : List A)
      → DistinctBy key (x ∷ ys)
      → DistinctBy key (insert_by rank x ys)
  unfolding insert_by
  DistinctBy-insert_by key rank x [] h = h
  DistinctBy-insert_by key rank x (y ∷ ys) h = elim (Bool-cases (ltb_ℤ (rank y) (rank x))) [
    | inl less ↦ rw less (
      All-insert_by (λ z. key y ≢ key z) rank x ys (λ e. h.0.0 (sym e)) h.1.0,
      DistinctBy-insert_by key rank x ys (h.0.1, h.1.1),
    )
    | inr more ↦ rw more h
  ]

  All-sorted_ne :
      (key : A → B) (rank : A → ℤ) (x : A) (xs : List A)
      → All (λ y. key x ≢ key y) xs
      → All (λ y. key x ≢ key y) (sorted rank xs)
  unfolding sorted
  All-sorted_ne key rank x [] h = tt
  All-sorted_ne key rank x (y ∷ ys) h =
      All-insert_by (λ z. key x ≢ key z) rank y (sorted rank ys) h.0
        (All-sorted_ne key rank x ys h.1)

  pub DistinctBy-sorted :
      (key : A → B) (rank : A → ℤ) (xs : List A)
      → DistinctBy key xs
      → DistinctBy key (sorted rank xs)
  unfolding sorted
  DistinctBy-sorted key rank [] h = tt
  DistinctBy-sorted key rank (x ∷ xs) h =
      DistinctBy-insert_by key rank x (sorted rank xs)
        (All-sorted_ne key rank x xs h.0, DistinctBy-sorted key rank xs h.1)

  pub DistinctBy-select :
      (key : A → B) (p : A → Bool) (xs : List A) → DistinctBy key xs → DistinctBy key (select p xs)
  DistinctBy-select key p [] h = tt
  DistinctBy-select key p (x ∷ xs) h = elim (Bool-cases (p x)) [
    | inl pass ↦ rw pass (
      All-map (λ y hy. hy.0) (select p xs) (All-select (λ y. key x ≢ key y) p xs h.0),
      DistinctBy-select key p xs h.1,
    )
    | inr fail ↦ rw fail (DistinctBy-select key p xs h.1)
  ]

  pub DistinctBy-change_first :
      (key : A → B) (p : A → Bool) (change : A → A) (xs : List A)
      → ((x : A) → key (change x) ≡ key x)
      → DistinctBy key xs
      → DistinctBy key (change_first p change xs)
  unfolding change_first
  DistinctBy-change_first key p change [] keep h = tt
  DistinctBy-change_first key p change (x ∷ xs) keep h = elim (Bool-cases (p x)) [
    | inl it ↦ rw it (All-map (λ y ne e. ne (sym (keep x) ∙ e)) xs h.0, h.1)
    | inr other ↦ rw other (
      All-change_first (λ y. key x ≢ key y) p change xs (λ y ne e. ne (e ∙ keep y)) h.0,
      DistinctBy-change_first key p change xs keep h.1,
    )
  ]

  pub DistinctBy-snoc :
      (key : A → B) (xs : List A) (x : A)
      → DistinctBy key xs
      → All (λ y. key y ≢ key x) xs
      → DistinctBy key (xs ++ x ∷ [])
  DistinctBy-snoc key [] x d h = (tt, tt)
  DistinctBy-snoc key (y ∷ ys) x d h =
      (All-append (λ z. key y ≢ key z) ys (x ∷ []) d.0 (h.0, tt), DistinctBy-snoc key ys x d.1 h.1)

  -- Two members with the same text are one.
  pub DistinctBy-unique :
      (key : A → B) (xs : List A) {x y : A}
      → DistinctBy key xs
      → IsIn x xs
      → IsIn y xs
      → key x ≡ key y
      → x ≡ y
  DistinctBy-unique key [] d at _ e = elim at [ ]
  DistinctBy-unique key (z ∷ zs) d (here _) (here _) e = refl
  DistinctBy-unique key (z ∷ zs) d (here _) (there _ j) e =
      absurd (All-at (λ y. key z ≢ key y) d.0 j e)
  DistinctBy-unique key (z ∷ zs) d (there _ i) (here _) e =
      absurd (All-at (λ y. key z ≢ key y) d.0 i (sym e))
  DistinctBy-unique key (z ∷ zs) d (there _ i) (there _ j) e = DistinctBy-unique key zs d.1 i j e

module _ {ℓ} {A : Type ℓ} {B C : Type 0} where
  -- Members that differ in one column, and so in another one.
  pub DistinctBy-of :
      (key : A → B) (key' : A → C) (P : A → Type 0) (xs : List A)
      → ((x y : A) → P x → P y → key' x ≡ key' y → key x ≡ key y)
      → All P xs
      → DistinctBy key xs
      → DistinctBy key' xs
  DistinctBy-of key key' P [] inj h d = tt
  DistinctBy-of key key' P (x ∷ xs) inj h d =
      (others x xs h.0 h.1 d.0, DistinctBy-of key key' P xs inj h.1 d.1)
    where
      others :
          (x : A) (ys : List A)
          → P x
          → All P ys
          → All (λ y. key x ≢ key y) ys
          → All (λ y. key' x ≢ key' y) ys
      others x [] px hs ne = tt
      others x (y ∷ ys) px hs ne = ((λ e. ne.0 (inj x y px hs.0 e)), others x ys px hs.1 ne.1)

module _ {ℓ} {A : Type ℓ} where
  -- A member is the one that a search for its text finds.
  pub find_first_member :
      (key : A → String) (xs : List A) (x : A)
      → DistinctBy key xs
      → IsIn x xs
      → find_first (λ y. str_eq (key y) (key x)) xs ≡ some x
  find_first_member key [] x h at = elim at [ ]
  find_first_member key (y ∷ ys) x h (here _) = rw ((eq_iff (key x) (key x)).1 refl) refl
  find_first_member key (y ∷ ys) x h (there _ at) = elim (Bool-cases (str_eq (key y) (key x))) [
    | inl it ↦ absurd (All-at (λ z. key y ≢ key z) h.0 at ((eq_iff (key y) (key x)).0 it))
    | inr other ↦ rw other (find_first_member key ys x h.1 at)
  ]
