-- ===== src/Engine/SidePots/Merging.antt =====
-- Merging dead pots into live ones.
use poker_room_backend.Prelude.{
  ℤ, pos, ◌+ℤ◌, ◌≤ℤ◌, ◌≡◌, refl, ◌∙◌, ◌⊎◌, String, true, false, List, [], ◌∷◌, ◌++◌, inl, inr,
  arith, int_laws, Bool-cases, ltb_ℤ, sum_by, sum_by-append, All, All-append,
}
use poker_room_backend.Engine.SidePots.{
  RawPot, Merge, is_empty, merge_step, merge_loop, add_carry, merge_dead_pots,
}

abbrev pub raw_total : List RawPot → ℤ
raw_total = sum_by (λ r. r.amount)

abbrev merge_total : Merge → ℤ
merge_total m = raw_total m.result +ℤ m.carry_amount

merge_step_total :
    (m : Merge) (pot : RawPot) → merge_total (merge_step m pot) ≡ merge_total m +ℤ pot.amount
unfolding merge_step
merge_step_total m pot = elim (Bool-cases (is_empty pot.eligible)) [
  | inl dead ↦ rw dead (omega int_laws)
  | inr live ↦ rw (live, sum_by-append (λ (r : RawPot). r.amount) m.result _) (omega int_laws)
]

merge_loop_total :
    (m : Merge) (pots : List RawPot)
    → merge_total (merge_loop m pots) ≡ merge_total m +ℤ raw_total pots
unfolding merge_loop
merge_loop_total m [] = omega int_laws
merge_loop_total m (pot ∷ pots) =
    rw (merge_loop_total (merge_step m pot) pots, merge_step_total m pot) (omega int_laws)

merge_step-carry :
    (m : Merge) (pot : RawPot)
    → pos 0 ≤ℤ m.carry_amount
    → pos 0 ≤ℤ pot.amount
    → pos 0 ≤ℤ (merge_step m pot).carry_amount
unfolding merge_step
merge_step-carry m pot h k = grind int_laws

merge_loop-carry :
    (m : Merge) (pots : List RawPot)
    → pos 0 ≤ℤ m.carry_amount
    → All (λ r. pos 0 ≤ℤ r.amount) pots
    → pos 0 ≤ℤ (merge_loop m pots).carry_amount
unfolding merge_loop
merge_loop-carry m [] h k = h
merge_loop-carry m (pot ∷ pots) h k =
    merge_loop-carry (merge_step m pot) pots (merge_step-carry m pot h k.0) k.1

add_carry_total :
    (carry : ℤ) (ids : List String) (pots : List RawPot)
    → raw_total (add_carry carry ids pots) ≡ raw_total pots +ℤ carry
unfolding add_carry
add_carry_total carry ids [] = omega int_laws
add_carry_total carry ids (last ∷ []) = omega int_laws
add_carry_total carry ids (pot ∷ next ∷ pots) =
    rw (add_carry_total carry ids (next ∷ pots)) (omega int_laws)

abbrev nothing : Merge
nothing = record { result = []; carry_amount = pos 0; carry_contributors = [] }

-- Merging loses no chip.
pub merge_dead_pots_total :
    (pots : List RawPot)
    → All (λ r. pos 0 ≤ℤ r.amount) pots
    → raw_total (merge_dead_pots pots) ≡ raw_total pots
unfolding merge_dead_pots
merge_dead_pots_total pots h =
    let m = merge_loop nothing pots in
    let total = merge_loop_total nothing pots in
    let carried = merge_loop-carry nothing pots (omega arith) h in
    elim (Bool-cases (ltb_ℤ (pos 0) m.carry_amount)) [
      | inl some_left ↦
          rw (some_left, add_carry_total m.carry_amount m.carry_contributors m.result)
            (total ∙ omega int_laws)
      | inr none_left ↦
          rw none_left
            (no_carry (raw_total m.result) m.carry_amount (raw_total pots) none_left carried total)
    ]
  where
    no_carry :
        (a c t : ℤ) → ltb_ℤ (pos 0) c ≡ false → pos 0 ≤ℤ c → a +ℤ c ≡ pos 0 +ℤ pos 0 +ℤ t → a ≡ t
    no_carry a c t h k e = grind int_laws

-- Only the pots' own winners stay eligible.
module _ (P : String → Type 0) where
  abbrev Winners : List RawPot → Type 0
  Winners = All (λ r. All P r.eligible)

  merge_step-Winners :
      (m : Merge) (pot : RawPot)
      → Winners m.result
      → All P pot.eligible
      → Winners (merge_step m pot).result
  unfolding merge_step
  merge_step-Winners m pot h k = elim (Bool-cases (is_empty pot.eligible)) [
    | inl dead ↦ rw dead h
    | inr live ↦ rw live (All-append _ m.result _ h (k, tt))
  ]

  merge_loop-Winners :
      (m : Merge) (pots : List RawPot)
      → Winners m.result
      → Winners pots
      → Winners (merge_loop m pots).result
  unfolding merge_loop
  merge_loop-Winners m [] h k = h
  merge_loop-Winners m (pot ∷ pots) h k =
      merge_loop-Winners (merge_step m pot) pots (merge_step-Winners m pot h k.0) k.1

  add_carry-Winners :
      (carry : ℤ) (ids : List String) (pots : List RawPot)
      → Winners pots
      → Winners (add_carry carry ids pots)
  unfolding add_carry
  add_carry-Winners carry ids [] h = (tt, tt)
  add_carry-Winners carry ids (last ∷ []) h = h
  add_carry-Winners carry ids (pot ∷ next ∷ pots) h =
      (h.0, add_carry-Winners carry ids (next ∷ pots) h.1)

  pub merge_dead_pots-Winners : (pots : List RawPot) → Winners pots → Winners (merge_dead_pots pots)
  unfolding merge_dead_pots
  merge_dead_pots-Winners pots h =
      let m = merge_loop nothing pots in
      let kept = merge_loop-Winners nothing pots tt h in
      elim (Bool-cases (ltb_ℤ (pos 0) m.carry_amount)) [
        | inl some_left ↦
            rw some_left (add_carry-Winners m.carry_amount m.carry_contributors m.result kept)
        | inr none_left ↦ rw none_left kept
      ]

abbrev pub IsLive : RawPot → Type 0
IsLive r = is_empty r.eligible ≡ false

abbrev pub IsDead : RawPot → Type 0
IsDead r = is_empty r.eligible ≡ true

merge_step-IsLive :
    (m : Merge) (pot : RawPot) → All IsLive m.result → All IsLive (merge_step m pot).result
unfolding merge_step
merge_step-IsLive m pot h = elim (Bool-cases (is_empty pot.eligible)) [
  | inl dead ↦ rw dead h
  | inr live ↦ rw live (All-append IsLive m.result _ h (live, tt))
]

merge_loop-IsLive :
    (m : Merge) (pots : List RawPot) → All IsLive m.result → All IsLive (merge_loop m pots).result
unfolding merge_loop
merge_loop-IsLive m [] h = h
merge_loop-IsLive m (pot ∷ pots) h =
    merge_loop-IsLive (merge_step m pot) pots (merge_step-IsLive m pot h)

append-not_empty {ℓ} : {A : Type ℓ} (xs : List A) (y : A) → is_empty (xs ++ y ∷ []) ≡ false
append-not_empty [] y = refl
append-not_empty (x ∷ xs) y = refl

-- A step with a live pot leaves a result, and no later step takes it away.
merge_step-not_empty :
    (m : Merge) (pot : RawPot)
    → (is_empty pot.eligible ≡ false) ⊎ (is_empty m.result ≡ false)
    → is_empty (merge_step m pot).result ≡ false
unfolding merge_step
merge_step-not_empty m pot h = elim (Bool-cases (is_empty pot.eligible)) [
  | inl dead ↦ rw dead (ground arith)
  | inr live ↦ rw live (append-not_empty m.result _)
]

merge_loop-not_empty :
    (m : Merge) (pots : List RawPot)
    → is_empty m.result ≡ false
    → is_empty (merge_loop m pots).result ≡ false
unfolding merge_loop
merge_loop-not_empty m [] h = h
merge_loop-not_empty m (pot ∷ pots) h =
    merge_loop-not_empty (merge_step m pot) pots (merge_step-not_empty m pot (inr h))

-- Without a result, every pot was dead.
merge_loop-All-IsDead :
    (m : Merge) (pots : List RawPot) → is_empty (merge_loop m pots).result ≡ true → All IsDead pots
unfolding merge_loop
merge_loop-All-IsDead m [] h = tt
merge_loop-All-IsDead m (pot ∷ pots) h = (
  elim (Bool-cases (is_empty pot.eligible)) [
    | inl dead ↦ dead
    | inr live ↦
        cc (h, merge_loop-not_empty (merge_step m pot) pots (merge_step-not_empty m pot (inl live)))
  ],
  merge_loop-All-IsDead (merge_step m pot) pots h,
)

add_carry-IsLive :
    (carry : ℤ) (ids : List String) (pots : List RawPot)
    → is_empty pots ≡ false
    → All IsLive pots
    → All IsLive (add_carry carry ids pots)
unfolding add_carry
add_carry-IsLive carry ids [] e h = cc
add_carry-IsLive carry ids (last ∷ []) e h = h
add_carry-IsLive carry ids (pot ∷ next ∷ pots) e h =
    (h.0, add_carry-IsLive carry ids (next ∷ pots) refl h.1)

-- Every merged pot has someone who may win it, unless nobody may win any.
pub merge_dead_pots-IsLive :
    (pots : List RawPot) → All IsLive (merge_dead_pots pots) ⊎ All IsDead pots
unfolding merge_dead_pots
merge_dead_pots-IsLive pots =
    let m = merge_loop nothing pots in
    let live = merge_loop-IsLive nothing pots tt in
    elim (Bool-cases (is_empty m.result)) [
      | inl none_live ↦ inr (merge_loop-All-IsDead nothing pots none_live)
      | inr some_live ↦ inl (elim (Bool-cases (ltb_ℤ (pos 0) m.carry_amount)) [
        | inl left ↦
            rw left (add_carry-IsLive m.carry_amount m.carry_contributors m.result some_live live)
        | inr over ↦ rw over live
      ])
    ]
