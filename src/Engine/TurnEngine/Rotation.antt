-- ===== src/Engine/TurnEngine/Rotation.antt =====
-- The index arithmetic of the loop is a walk round the table, clockwise from the actor.
use poker_room_backend.Prelude.{
  ℕ, zero, suc, ◌+◌, ◌-◌, ◌%◌, ◌≤◌, ◌<◌, ℤ, ◌≤ℤ◌, ◌<ℤ◌, ◌≡◌, ◌≢◌, refl, sym, subst, ap, ◌∙◌, Bool,
  not, Option, some, List, [], ◌∷◌, ◌++◌, inl, inr, arith, Bool-cases, ltb, ltb_ℤ, if◌then◌else◌,
  length, length-append, get_elem?, select, All,
}
use native.Mathlib.Nat.{mod-eq_of_lt}
use mathlib.Core.List.{append-nil}
use poker_room_backend.Prelude.Sorting.{Ascending, sorted, sorted-Ascending}
use poker_room_backend.Engine.TurnEngine.{
  ActionSeat, NextActorResult, can_act, closed, start_index, consider, turn_loop, next_to_act,
}

get_elem?-append_left {ℓ} :
    {A : Type ℓ} (xs ys : List A) (i : ℕ) → i < length xs → get_elem? (xs ++ ys) i ≡ get_elem? xs i
get_elem?-append_left [] ys i h = absurd (omega arith)
get_elem?-append_left (x ∷ xs) ys zero h = refl
get_elem?-append_left (x ∷ xs) ys (suc i) h = get_elem?-append_left xs ys i (omega arith)

get_elem?-append_right {ℓ} :
    {A : Type ℓ} (xs ys : List A) (i : ℕ) → get_elem? (xs ++ ys) (length xs + i) ≡ get_elem? ys i
get_elem?-append_right [] ys i = ap (get_elem? ys) (omega arith)
get_elem?-append_right (x ∷ xs) ys i =
    ap (get_elem? (x ∷ xs ++ ys)) {y = suc (length xs + i)} (omega arith)
    ∙ get_elem?-append_right xs ys i

mod_wrap : (a n : ℕ) → n ≤ a → a < n + n → a % n ≡ a - n
mod_wrap a n h k = grind arith

-- Looking up from `length lo` on, round the end, is looking up in the rotated list.
rotation_lookup {ℓ} :
    {A : Type ℓ} (lo hi : List A) (k : ℕ)
    → k < length (lo ++ hi)
    → get_elem? (lo ++ hi) ((length lo + k) % length (lo ++ hi)) ≡ get_elem? (hi ++ lo) k
rotation_lookup lo hi k h = elim (Bool-cases (ltb k (length hi))) [
  | inl front ↦
      ap (get_elem? (lo ++ hi)) (mod-eq_of_lt (ground (arith, length-append lo hi)))
      ∙ get_elem?-append_right lo hi k
      ∙ sym (get_elem?-append_left hi lo k (ground arith))
  | inr back ↦
      ap (get_elem? (lo ++ hi)) (
        mod_wrap (length lo + k) (length (lo ++ hi)) (ground (arith, length-append lo hi))
          (ground (arith, length-append lo hi))
        ∙ ground (arith, length-append lo hi))
      ∙ get_elem?-append_left lo hi (k - length hi) (ground (arith, length-append lo hi))
      ∙ sym (get_elem?-append_right hi lo (k - length hi))
      ∙ ap (get_elem? (hi ++ lo)) (ground arith)
]

abbrev pub is_behind : ℤ → ActionSeat → Bool
is_behind actor p = ltb_ℤ actor p.seat_number

-- The seats behind the actor's, then the others.
abbrev pub clockwise : ℤ → List ActionSeat → List ActionSeat
clockwise actor ordered =
    select (is_behind actor) ordered ++ select (λ p. not (is_behind actor p)) ordered

-- The loop over the seats as a recursion on the list.
abbrev pub walk : Option ℤ → ℤ → List ActionSeat → NextActorResult
walk aggressor highest [] = closed
walk aggressor highest (p ∷ ps) = consider aggressor highest p (walk aggressor highest ps)

-- In the order of the seats those behind the actor come last, from `start_index` on.
no_one_behind :
    (actor : ℤ) (i : ℕ) (ps : List ActionSeat)
    → select (is_behind actor) ps ≡ []
    → start_index actor i ps ≡ 0
unfolding start_index
no_one_behind actor i [] h = refl
no_one_behind actor i (p ∷ ps) h = ground (arith, no_one_behind actor (suc i) ps)

All-behind :
    (actor : ℤ) (p : ActionSeat) (ps : List ActionSeat)
    → actor <ℤ p.seat_number
    → All (λ q. p.seat_number ≤ℤ q.seat_number) ps
    → (select (is_behind actor) ps ≡ ps) × (select (λ q. not (is_behind actor q)) ps ≡ [])
All-behind actor p [] h le = (refl, refl)
All-behind actor p (q ∷ ps) h le = ground (arith, All-behind actor p ps h le.1)

-- The sorted seats, split at the actor's.
seats_split :
    (actor : ℤ) (ps : List ActionSeat)
    → Ascending (λ p. p.seat_number) ps
    → ps ≡ select (λ q. not (is_behind actor q)) ps ++ select (is_behind actor) ps
seats_split actor [] asc = refl
seats_split actor (p ∷ ps) asc = elim (Bool-cases (is_behind actor p)) [
  | inl behind ↦
      let (all, none_left) = All-behind actor p ps (ground arith) asc.0 in
      rw (behind, none_left, all) refl
  | inr before ↦ rw before (ap (◌∷◌ p) (seats_split actor ps asc.1))
]

start_index_lem :
    (actor : ℤ) (i : ℕ) (ps : List ActionSeat)
    → Ascending (λ p. p.seat_number) ps
    → select (is_behind actor) ps ≢ []
    → start_index actor i ps ≡ i + length (select (λ q. not (is_behind actor q)) ps)
unfolding start_index
start_index_lem actor i [] asc h = absurd (h refl)
start_index_lem actor i (p ∷ ps) asc h = elim (Bool-cases (is_behind actor p)) [
  | inl behind ↦
      let (all, none_left) = All-behind actor p ps (ground arith) asc.0 in
      rw (behind, none_left) (omega arith)
  | inr before ↦
      rw before (start_index_lem actor (suc i) ps asc.1 (λ e. h (rw before e)) ∙ omega arith)
]

lookup_round {ℓ} :
    {A : Type ℓ} (s lo hi : List A) (start k : ℕ)
    → s ≡ lo ++ hi
    → (hi ≡ [] → start ≡ 0)
    → (hi ≢ [] → start ≡ length lo)
    → k < length s
    → get_elem? s ((start + k) % length s) ≡ get_elem? (hi ++ lo) k
lookup_round s lo [] start k e h0 h1 lt =
    ap (get_elem? s) {y = k}
      (rw (h0 refl) (ap (λ n. n % length s) {y = k} (omega arith) ∙ mod-eq_of_lt lt))
    ∙ ap (λ l. get_elem? l k) (e ∙ append-nil lo)
lookup_round s lo (x ∷ hi) start k e h0 h1 lt =
    rw (e, h1 (λ q. cc)) (rotation_lookup lo (x ∷ hi) k (subst (λ l. k < length l) e lt))

-- The loop over the rest of a round is the walk over it.
turn_loop-walk :
    (s : List ActionSeat) (aggressor : Option ℤ) (highest : ℤ) (start step : ℕ)
    (rest : List ActionSeat)
    → ((k : ℕ) → k < length rest → get_elem? s ((start + (step + k)) % length s) ≡ get_elem? rest k)
    → turn_loop s aggressor highest start step (length rest) ≡ walk aggressor highest rest
unfolding turn_loop
turn_loop-walk s aggressor highest start step [] look = refl
turn_loop-walk s aggressor highest start step (p ∷ rest) look =
    let at : get_elem? s ((start + step) % length s) ≡ some p =
      ap (λ n. get_elem? s ((start + n) % length s)) {y = step + 0} (omega arith)
      ∙ look 0 (omega arith) in
    rw (at, turn_loop)
      (ap (consider aggressor highest p) (
        turn_loop-walk s aggressor highest start (suc step) rest λ k lt.
          ap (λ n. get_elem? s ((start + n) % length s)) {y = step + suc k} (omega arith)
          ∙ look (suc k) (omega arith)))

length-clockwise : (actor : ℤ) (s : List ActionSeat) → length (clockwise actor s) ≡ length s
length-clockwise actor s = length-append (select (is_behind actor) s) _ ∙ both actor s
  where
    both :
        (a : ℤ) (ps : List ActionSeat)
        → length (select (is_behind a) ps) + length (select (λ p. not (is_behind a p)) ps)
          ≡ length ps
    both a [] = omega arith
    both a (p ∷ ps) = ground (arith, both a ps)

-- The loop of `next_to_act` walks clockwise from the actor, over every eligible seat once.
pub next_to_act-eq-walk :
    (players : List ActionSeat) (actor : ℤ) (aggressor : Option ℤ) (highest : ℤ)
    → next_to_act players actor aggressor highest ≡ (
        if ltb (length (select can_act players)) 2
        then closed
        else walk aggressor highest
            (clockwise actor (sorted (λ p. p.seat_number) (select can_act players))))
unfolding next_to_act
next_to_act-eq-walk players actor aggressor highest =
    let s = sorted (λ (p : ActionSeat). p.seat_number) (select can_act players) in
    let asc = sorted-Ascending (λ (p : ActionSeat). p.seat_number) (select can_act players) in
    let start = start_index actor 0 s in
    let walked : turn_loop s aggressor highest start 0 (length s)
        ≡ walk aggressor highest (clockwise actor s) =
      ap (turn_loop s aggressor highest start 0) (sym (length-clockwise actor s))
      ∙ turn_loop-walk s aggressor highest start 0 (clockwise actor s) (λ k lt.
        ap (λ n. get_elem? s ((start + n) % length s)) {y = k} (omega arith)
        ∙ lookup_round s (select (λ q. not (is_behind actor q)) s) (select (is_behind actor) s)
            start k (seats_split actor s asc) (no_one_behind actor 0 s)
            (λ h. start_index_lem actor 0 s asc h ∙ omega arith)
            (subst (λ n. k < n) (length-clockwise actor s) lt)) in
    ap (λ r. if ltb (length (select can_act players)) 2 then closed else r) walked
