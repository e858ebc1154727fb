-- ===== src/Engine/TurnEngine/Laws.antt =====
-- Who acts next, and when the betting of a street is closed.
use poker_room_backend.Prelude.{
  ◌≤◌, ◌<◌, ℤ, ◌≤ℤ◌, ◌<ℤ◌, ◌≡◌, ◌⊎◌, refl, sym, subst, ap, ◌∙◌, true, false, not, Option, List, [],
  ◌∷◌, ◌++◌, inl, inr, arith, Bool-cases, ltb, length, select, All, All-map, All-at, All-IsIn,
  All-select, All-append, IsIn,
}
use poker_room_backend.Prelude.Sorting.{sorted, All-sorted}
use poker_room_backend.Engine.TurnEngine.{
  ActionSeat, NextActorResult, can_act, needs_action, is_aggressor, closed, acts, next_to_act,
}
use poker_room_backend.Engine.TurnEngine.Rotation.{walk, clockwise, is_behind, next_to_act-eq-walk}

-- The seats that the engine asks, clockwise from the actor's.
abbrev pub order : List ActionSeat → ℤ → List ActionSeat
order players actor = clockwise actor (sorted (λ p. p.seat_number) (select can_act players))

-- A seat that the walk passes by.
abbrev pub Passed : Option ℤ → ℤ → ActionSeat → Type 0
Passed aggressor highest p = (is_aggressor aggressor p ≡ false) × (needs_action p highest ≡ false)

-- The walk stops at `p`, with what is said of it.
pub record StopsAt (aggressor : Option ℤ) (highest : ℤ) (ps : List ActionSeat) (p : ActionSeat)
    : Type 0 where
  pub before : List ActionSeat
  pub after : List ActionSeat
  pub split : ps ≡ before ++ p ∷ after
  pub passed : All (Passed aggressor highest) before

-- The outcome of a walk: the first seat in the order that owes chips acts, unless the aggressor
-- comes first or nobody owes.
abbrev pub Outcome : Option ℤ → ℤ → List ActionSeat → NextActorResult → Type 0
Outcome aggressor highest ps r =
    ((r ≡ closed) × All (Passed aggressor highest) ps)
    ⊎ ((p : ActionSeat) × StopsAt aggressor highest ps p
        × (((is_aggressor aggressor p ≡ true) × (r ≡ closed))
            ⊎ ((is_aggressor aggressor p ≡ false)
                × (needs_action p highest ≡ true)
                × (r ≡ acts p))))

stop_here :
    {aggressor : Option ℤ} {highest : ℤ} (p : ActionSeat) (ps : List ActionSeat)
    → StopsAt aggressor highest (p ∷ ps) p
stop_here p ps = record { before = []; after = ps; split = refl; passed = tt }

Outcome-skip :
    (aggressor : Option ℤ) (highest : ℤ) (p : ActionSeat) (ps : List ActionSeat)
    (r : NextActorResult)
    → Passed aggressor highest p
    → Outcome aggressor highest ps r
    → Outcome aggressor highest (p ∷ ps) r
Outcome-skip aggressor highest p ps r h (inl (e, all)) = inl (e, (h, all))
Outcome-skip aggressor highest p ps r h (inr (q, s, o)) = inr (
  q,
  record {
    before = p ∷ s.before;
    after = s.after;
    split = ap (◌∷◌ p) s.split;
    passed = (h, s.passed);
  },
  o,
)

walk_past :
    (aggressor : Option ℤ) (highest : ℤ) (p : ActionSeat) (ps : List ActionSeat)
    → is_aggressor aggressor p ≡ false
    → needs_action p highest ≡ false
    → walk aggressor highest (p ∷ ps) ≡ walk aggressor highest ps
walk_past aggressor highest p ps other even = rw (other, even) refl

walk-Outcome :
    (aggressor : Option ℤ) (highest : ℤ) (ps : List ActionSeat)
    → Outcome aggressor highest ps (walk aggressor highest ps)
walk-Outcome aggressor highest [] = inl (refl, tt)
walk-Outcome aggressor highest (p ∷ ps) = elim (Bool-cases (is_aggressor aggressor p)) [
  | inl back ↦ inr (p, stop_here p ps, inl (back, rw back refl))
  | inr other ↦ elim (Bool-cases (needs_action p highest)) [
    | inl owes ↦ inr (p, stop_here p ps, inr (other, owes, rw (other, owes) refl))
    | inr even ↦
        subst (Outcome aggressor highest (p ∷ ps))
          (sym (walk_past aggressor highest p ps other even))
          (Outcome-skip aggressor highest p ps (walk aggressor highest ps) (other, even)
            (walk-Outcome aggressor highest ps))
  ]
]

-- With two players who can act or more, the first one clockwise from the actor who owes chips acts;
-- the betting is closed if the last aggressor comes first or if nobody owes chips. With fewer it is
-- closed.
pub next_to_act_lem :
    (players : List ActionSeat) (actor : ℤ) (aggressor : Option ℤ) (highest : ℤ)
    → ((length (select can_act players) < 2)
        × (next_to_act players actor aggressor highest ≡ closed))
      ⊎ ((2 ≤ length (select can_act players))
          × Outcome aggressor highest
              (order players actor)
              (next_to_act players actor aggressor highest))
next_to_act_lem players actor aggressor highest =
    elim (Bool-cases (ltb (length (select can_act players)) 2)) [
      | inl few ↦
          inl (ground arith, next_to_act-eq-walk players actor aggressor highest ∙ rw few refl)
      | inr enough ↦ inr (
        ground arith,
        subst (Outcome aggressor highest (order players actor))
            (sym (next_to_act-eq-walk players actor aggressor highest ∙ rw enough refl))
            (walk-Outcome aggressor highest (order players actor)),
      )
    ]

-- Everyone in the order is a player who can act.
order-can_act :
    (players : List ActionSeat) (actor : ℤ)
    → All (λ p. IsIn p players × (can_act p ≡ true)) (order players actor)
order-can_act players actor =
    let able =
      All-sorted _ (λ (p : ActionSeat). p.seat_number) (select can_act players)
        (All-select (λ p. IsIn p players) can_act players (All-IsIn players)) in
    let s = sorted (λ (p : ActionSeat). p.seat_number) (select can_act players) in
    All-append _ (select (is_behind actor) s) _
      (All-map (λ p h. h.0) (select (is_behind actor) s) (All-select _ (is_behind actor) s able))
      (All-map (λ p h. h.0) (select (λ p. not (is_behind actor p)) s)
        (All-select _ (λ p. not (is_behind actor p)) s able))

All-split :
    (P : ActionSeat → Type 0) (before : List ActionSeat) (p : ActionSeat) (after : List ActionSeat)
    → All P (before ++ p ∷ after)
    → P p
All-split P [] p after h = h.0
All-split P (q ∷ before) p after h = All-split P before p after h.1

-- Whoever is to act next sits at the table, can act, and has committed less than the highest bet.
pub next_to_act-owes :
    (players : List ActionSeat) (actor : ℤ) (aggressor : Option ℤ) (highest : ℤ)
    → (next_to_act players actor aggressor highest).is_round_closed ≡ false
    → (p : ActionSeat) × IsIn p players
      × (can_act p ≡ true)
      × (p.committed_this_street <ℤ highest)
      × (is_aggressor aggressor p ≡ false)
      × (next_to_act players actor aggressor highest ≡ acts p)
next_to_act-owes players actor aggressor highest h =
    elim (next_to_act_lem players actor aggressor highest) [
      | inl few ↦ absurd (is_closed few.1)
      | inr (enough, inl (e, all)) ↦ absurd (is_closed e)
      | inr (enough, inr (p, s, inl (back, e))) ↦ absurd (is_closed e)
      | inr (enough, inr (p, s, inr (other, owes, e))) ↦
          let able =
            All-split _ s.before p s.after (subst (All _) s.split (order-can_act players actor)) in
          (p, able.0, able.1, owes_less p highest owes, other, e)
    ]
  where
    is_closed : next_to_act players actor aggressor highest ≡ closed → ⊥
    is_closed e = cc (ap (λ (r : NextActorResult). r.is_round_closed) e, h)

    owes_less : (p : ActionSeat) (b : ℤ) → needs_action p b ≡ true → p.committed_this_street <ℤ b
    owes_less p b owes = ground arith

closed_of_flag :
    (players : List ActionSeat) (actor : ℤ) (aggressor : Option ℤ) (highest : ℤ)
    → (next_to_act players actor aggressor highest).is_round_closed ≡ true
    → next_to_act players actor aggressor highest ≡ closed
closed_of_flag players actor aggressor highest h =
    elim (next_to_act_lem players actor aggressor highest) [
      | inl few ↦ few.1
      | inr (enough, inl (e, all)) ↦ e
      | inr (enough, inr (p, s, inl (back, e))) ↦ e
      | inr (enough, inr (p, s, inr (other, owes, e))) ↦
          cc (ap (λ (r : NextActorResult). r.is_round_closed) e, h)
    ]

-- When nobody owes chips the betting is closed, whoever the aggressor was.
pub next_to_act_matched :
    (players : List ActionSeat) (actor : ℤ) (aggressor : Option ℤ) (highest : ℤ)
    → All (λ p. highest ≤ℤ p.committed_this_street) players
    → next_to_act players actor aggressor highest ≡ closed
next_to_act_matched players actor aggressor highest all =
    elim (Bool-cases (next_to_act players actor aggressor highest).is_round_closed) [
      | inl e ↦ closed_of_flag players actor aggressor highest e
      | inr e ↦
          let (p, listed, able, less, other, at) =
            next_to_act-owes players actor aggressor highest e in
          absurd
            (not_less p highest less (All-at (λ p. highest ≤ℤ p.committed_this_street) all listed))
    ]
  where
    not_less :
        (p : ActionSeat) (b : ℤ) → p.committed_this_street <ℤ b → b ≤ℤ p.committed_this_street → ⊥
    not_less p b h k = omega arith
