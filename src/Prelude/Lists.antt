-- ===== src/Prelude/Lists.antt =====
-- Lists as Python uses them: comprehensions, `next(...)`, indexing.
use Prim.Native.Nat.{ℕ, zero, suc, ◌+◌}
use mathlib.Core.Path.{◌≡◌, refl, ap, subst}
use mathlib.Core.Bool.{Bool, true, false}
use mathlib.Core.Logic.{◌⊎◌, inl, inr}
use mathlib.Core.Option.{Option, none, some, map as map_option}
use mathlib.Core.List.{List, [], ◌∷◌, ◌++◌, map}
use native.Mathlib.Omega.{arith}
use poker_room_backend.Prelude.Tests.{if◌then◌else◌, Bool-cases}

module _ {ℓ} {A : Type ℓ} where
  abbrev pub length : List A → ℕ
  length [] = 0
  length (x ∷ xs) = suc (length xs)

  abbrev pub get_elem? : List A → ℕ → Option A
  get_elem? [] i = none
  get_elem? (x ∷ xs) zero = some x
  get_elem? (x ∷ xs) (suc i) = get_elem? xs i

  -- `[x for x in xs if p(x)]`
  abbrev pub select : (A → Bool) → List A → List A
  select p [] = []
  select p (x ∷ xs) = if p x then x ∷ select p xs else select p xs

  -- `next((x for x in xs if p(x)), None)`
  abbrev pub find_first : (A → Bool) → List A → Option A
  find_first p [] = none
  find_first p (x ∷ xs) = if p x then some x else find_first p xs

  -- every member has the property
  abbrev pub All {κ} : (A → Type κ) → List A → Type κ
  All P [] = Unit
  All P (x ∷ xs) = P x × All P xs

  -- a list with `x` in it
  pub data IsIn (x : A) : List A → Type ℓ where
    here : (xs : List A) → IsIn x (x ∷ xs)
    there : (y : A) {xs : List A} → IsIn x xs → IsIn x (y ∷ xs)

module _ {ℓ} {A : Type ℓ} where
  pub length-append : (xs ys : List A) → length (xs ++ ys) ≡ length xs + length ys
  length-append [] ys = omega arith
  length-append (x ∷ xs) ys = omega (arith, length-append xs ys)

  pub All-at {κ} : (P : A → Type κ) {x : A} {xs : List A} → All P xs → IsIn x xs → P x
  All-at P h (here xs) = h.0
  All-at P h (there y i) = All-at P h.1 i

  pub All-map {κ κ'} :
      {P : A → Type κ} {Q : A → Type κ'} (f : (x : A) → P x → Q x) (xs : List A)
      → All P xs
      → All Q xs
  All-map f [] h = tt
  All-map f (x ∷ xs) h = (f x h.0, All-map f xs h.1)

  pub length-map {κ} : {B : Type κ} (f : A → B) (xs : List A) → length (map f xs) ≡ length xs
  length-map f [] = refl
  length-map f (x ∷ xs) = ap suc (length-map f xs)

module _ {ℓ} {A : Type ℓ} where
  -- A list has all its members.
  pub All-IsIn : (xs : List A) → All (λ y. IsIn y xs) xs
  All-IsIn [] = tt
  All-IsIn (x ∷ xs) = (here xs, All-map (λ y i. there x i) xs (All-IsIn xs))

  pub All-append {κ} : (P : A → Type κ) (xs ys : List A) → All P xs → All P ys → All P (xs ++ ys)
  All-append P [] ys h k = k
  All-append P (x ∷ xs) ys h k = (h.0, All-append P xs ys h.1 k)

  -- What a comprehension keeps passes its test.
  pub All-select {κ} :
      (P : A → Type κ) (p : A → Bool) (xs : List A)
      → All P xs
      → All (λ x. P x × (p x ≡ true)) (select p xs)
  All-select P p [] h = tt
  All-select P p (x ∷ xs) h = elim (Bool-cases (p x)) [
    | inl pass ↦ rw pass ((h.0, pass), All-select P p xs h.1)
    | inr fail ↦ rw fail (All-select P p xs h.1)
  ]

  pub length-select-All :
      (p : A → Bool) (xs : List A) → All (λ x. p x ≡ true) xs → length (select p xs) ≡ length xs
  length-select-All p [] h = refl
  length-select-All p (x ∷ xs) h = rw h.0 (ap suc (length-select-All p xs h.1))

pub All-of_map {ℓ κ} :
    {A B : Type ℓ} (P : B → Type κ) (f : A → B) (xs : List A)
    → All (λ x. P (f x)) xs
    → All P (map f xs)
All-of_map P f [] h = tt
All-of_map P f (x ∷ xs) h = (h.0, All-of_map P f xs h.1)

module _ {ℓ} {A : Type ℓ} where
  -- A comprehension keeps every member that passes its test.
  pub IsIn-select :
      (p : A → Bool) {x : A} {xs : List A} → IsIn x xs → p x ≡ true → IsIn x (select p xs)
  IsIn-select p {x} (here xs) e = rw e (here (select p xs))
  IsIn-select p {x} (there y {xs} i) e = elim (Bool-cases (p y)) [
    | inl pass ↦ rw pass (there y (IsIn-select p i e))
    | inr fail ↦ rw fail (IsIn-select p i e)
  ]

  pub IsIn-map {κ} :
      {B : Type κ} (f : A → B) {x : A} {xs : List A} → IsIn x xs → IsIn (f x) (map f xs)
  IsIn-map f (here xs) = here (map f xs)
  IsIn-map f (there y i) = there (f y) (IsIn-map f i)

module _ {ℓ} {A : Type ℓ} where
  -- What `next(...)` finds is a member that passes the test.
  pub All-find_first {κ} :
      (P : A → Type κ) (p : A → Bool) (xs : List A) {x : A}
      → All P xs
      → find_first p xs ≡ some x
      → P x × (p x ≡ true)
  All-find_first P p [] h e = absurd (none-ne-some e)
    where
      none-ne-some : {a : A} → ¬ (none ≡ some a)
      none-ne-some e = ground arith
  All-find_first P p (y ∷ ys) {x} h e = elim (Bool-cases (p y)) [
    | inl pass ↦ subst (λ z. P z × (p z ≡ true)) (same y (rw pass at e)) (h.0, pass)
    | inr fail ↦ All-find_first P p ys h.1 (rw fail at e)
  ]
    where
      same : (z : A) → some z ≡ some x → z ≡ x
      same z e = cc

module _ {ℓ} {A : Type ℓ} where
  -- A change of the first member that passes a test, if there is one.
  unfoldable pub change_first : (A → Bool) → (A → A) → List A → List A
  change_first p change [] = []
  change_first p change (x ∷ xs) = if p x then change x ∷ xs else x ∷ change_first p change xs

  -- What holds of a list but for the changed member, and of that member.
  pub All-change_first {κ} :
      (P : A → Type κ) (p : A → Bool) (change : A → A) (xs : List A)
      → ((x : A) → P x → P (change x))
      → All P xs
      → All P (change_first p change xs)
  unfolding change_first
  All-change_first P p change [] keep h = tt
  All-change_first P p change (x ∷ xs) keep h = elim (Bool-cases (p x)) [
    | inl it ↦ rw it (keep x h.0, h.1)
    | inr other ↦ rw other (h.0, All-change_first P p change xs keep h.1)
  ]

  -- A column that the change leaves alone.
  pub map-change_first {κ} :
      {B : Type κ} (f : A → B) (p : A → Bool) (change : A → A) (xs : List A)
      → ((x : A) → f (change x) ≡ f x)
      → map f (change_first p change xs) ≡ map f xs
  unfolding change_first
  map-change_first f p change [] keep = refl
  map-change_first f p change (x ∷ xs) keep = elim (Bool-cases (p x)) [
    | inl it ↦ rw it (ap (λ y. y ∷ map f xs) (keep x))
    | inr other ↦ rw other (ap (λ ys. f x ∷ ys) (map-change_first f p change xs keep))
  ]

  -- A search that the change cannot touch.
  pub find_first-change_first_other :
      (p q : A → Bool) (change : A → A) (xs : List A)
      → ((x : A) → p x ≡ true → (q x ≡ false) × (q (change x) ≡ false))
      → find_first q (change_first p change xs) ≡ find_first q xs
  unfolding change_first
  find_first-change_first_other p q change [] other = refl
  find_first-change_first_other p q change (x ∷ xs) other = elim (Bool-cases (p x)) [
    | inl it ↦ (let (before, after) = other x it in rw (it, before, after) refl)
    | inr miss ↦
        rw miss
          (ap (λ o. if q x then some x else o) (find_first-change_first_other p q change xs other))
  ]

  -- A search for the member that the change is of.
  pub find_first-change_first :
      (p : A → Bool) (change : A → A) (xs : List A)
      → ((x : A) → p (change x) ≡ p x)
      → find_first p (change_first p change xs) ≡ map_option change (find_first p xs)
  unfolding change_first
  find_first-change_first p change [] keep = refl
  find_first-change_first p change (x ∷ xs) keep = elim (Bool-cases (p x)) [
    | inl it ↦ rw (it, keep x, it) refl
    | inr miss ↦ rw (miss, miss) (find_first-change_first p change xs keep)
  ]

  pub length-change_first :
      (p : A → Bool) (change : A → A) (xs : List A) → length (change_first p change xs) ≡ length xs
  unfolding change_first
  length-change_first p change [] = refl
  length-change_first p change (x ∷ xs) = elim (Bool-cases (p x)) [
    | inl it ↦ rw it refl
    | inr other ↦ rw other (ap suc (length-change_first p change xs))
  ]

  -- A comprehension that keeps nothing.
  pub All-select_none : (p : A → Bool) (xs : List A) → select p xs ≡ [] → All (λ x. p x ≡ false) xs
  All-select_none p [] h = tt
  All-select_none p (x ∷ xs) h = elim (Bool-cases (p x)) [
    | inl it ↦ absurd (not_nil (rw it at h))
    | inr other ↦ (other, All-select_none p xs (rw other at h))
  ]
    where
      not_nil : {ys : List A} → ¬ (x ∷ ys ≡ [])
      not_nil e = ground arith

  pub List-cases : (xs : List A) → (xs ≡ []) ⊎ ((x : A) × (ys : List A) × (xs ≡ x ∷ ys))
  List-cases [] = inl refl
  List-cases (x ∷ ys) = inr (x, ys, refl)
