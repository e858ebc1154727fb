-- ===== src/Engine/SidePots/Levels.antt =====
-- The pots between the levels, before dead pots are merged.
use poker_room_backend.Prelude.{
  suc, ℤ, pos, ◌+ℤ◌, ◌-ℤ◌, ◌*ℤ◌, ◌≤ℤ◌, ◌<ℤ◌, ◌≡◌, refl, ◌∙◌, String, true, false, List, [], ◌∷◌,
  inl, inr, arith, int_laws, *ℤ-suc, *ℤ-zero, *ℤ_nonneg, Bool-cases, leb_ℤ, max_ℤ, length,
  length-select-All, select, sum_by, All, All-map, All-select, All-of_map, All-IsIn, IsIn, here,
  there, IsIn-select, IsIn-map, lt→ltb_ℤ,
}
use poker_room_backend.Prelude.Sorting.{Ascending}
use poker_room_backend.Engine.SidePots.{
  PlayerContribution, is_empty, above, may_win, level_pot, raw_pots,
}

-- The chips of a player above a level.
abbrev pub excess : ℤ → PlayerContribution → ℤ
excess level p = max_ℤ (pos 0) (p.committed_this_hand -ℤ level)

-- When every player is at or above `next`, lowering the level to `low` adds the same to each.
excess_step :
    (low next : ℤ) (ps : List PlayerContribution)
    → low ≤ℤ next
    → All (λ p. next ≤ℤ p.committed_this_hand) ps
    → sum_by (excess low) ps ≡ (next -ℤ low) *ℤ pos (length ps) +ℤ sum_by (excess next) ps
excess_step low next [] le h = rw *ℤ-zero (omega int_laws)
excess_step low next (p ∷ ps) le h =
    rw (excess_step low next ps le h.1, *ℤ-suc (next -ℤ low) (length ps)) (grind int_laws)

-- The contributors above a level are those among the players still to come.
abbrev Agrees : List PlayerContribution → ℤ → List PlayerContribution → Type 0
Agrees players low todo =
    (level : ℤ)
    → low ≤ℤ level
    → length (select (above level) players) ≡ length (select (above level) todo)

Agrees-tail :
    (players : List PlayerContribution) (low low' : ℤ) (p : PlayerContribution)
    (todo : List PlayerContribution)
    → low ≤ℤ low'
    → p.committed_this_hand ≤ℤ low'
    → Agrees players low (p ∷ todo)
    → Agrees players low' todo
Agrees-tail players low low' p todo le at h level above_low' = h level (omega arith) ∙ ground arith

ltb_of_leb :
    (p : PlayerContribution) (low : ℤ)
    → leb_ℤ p.committed_this_hand low ≡ false
    → low <ℤ p.committed_this_hand
ltb_of_leb p low h = ground arith

-- All the players to come contribute to the pot of the next level.
All-above :
    (players : List PlayerContribution) (low : ℤ) (p : PlayerContribution)
    (todo : List PlayerContribution)
    → low <ℤ p.committed_this_hand
    → All (λ q. p.committed_this_hand ≤ℤ q.committed_this_hand) todo
    → Agrees players low (p ∷ todo)
    → length (select (above low) players) ≡ suc (length todo)
All-above players low p todo lt le agrees =
    agrees low (omega arith)
    ∙ length-select-All (above low) (p ∷ todo) (ground arith, All-map (λ q h. ground arith) todo le)

-- The pots hold what the players have committed above the level.
pub raw_pots_total :
    (players : List PlayerContribution) (low : ℤ) (todo : List PlayerContribution)
    → Ascending (λ p. p.committed_this_hand) todo
    → Agrees players low todo
    → sum_by (λ r. r.amount) (raw_pots players low todo) ≡ sum_by (excess low) todo
unfolding raw_pots level_pot
raw_pots_total players low [] asc agrees = refl
raw_pots_total players low (p ∷ todo) asc agrees =
    elim (Bool-cases (leb_ℤ p.committed_this_hand low)) [
      | inl skip ↦
          rw
            (
              skip,
              raw_pots_total players low todo asc.1
                  (Agrees-tail players low low p todo (omega arith) (ground arith) agrees),
            )
            (grind int_laws)
      | inr take ↦
          rw
            (
              take,
              raw_pots_total players p.committed_this_hand todo asc.1 (
                  Agrees-tail players low p.committed_this_hand p todo (ground arith) (omega arith)
                    agrees),
            )
            (rw
              (
                All-above players low p todo (ltb_of_leb p low take) asc.0 agrees,
                *ℤ-suc (p.committed_this_hand -ℤ low) (length todo),
                excess_step low p.committed_this_hand todo (omega (arith, ltb_of_leb p low take))
                    asc.0,
              )
              (grind (int_laws, ltb_of_leb p low take)))
    ]

-- No pot is negative.
pub raw_pots_nonneg :
    (players : List PlayerContribution) (low : ℤ) (todo : List PlayerContribution)
    → All (λ r. pos 0 ≤ℤ r.amount) (raw_pots players low todo)
unfolding raw_pots level_pot
raw_pots_nonneg players low [] = tt
raw_pots_nonneg players low (p ∷ todo) = elim (Bool-cases (leb_ℤ p.committed_this_hand low)) [
  | inl skip ↦ rw skip (raw_pots_nonneg players low todo)
  | inr take ↦ rw take (
    *ℤ_nonneg (p.committed_this_hand -ℤ low) (length (select (above low) players))
        (omega (int_laws, ltb_of_leb p low take)),
    raw_pots_nonneg players p.committed_this_hand todo,
  )
]

-- A player who may win the pot between two levels.
pub record IsWinner (players : List PlayerContribution) (player_id : String) : Type 0 where
  pub player : PlayerContribution
  pub listed : IsIn player players
  pub named : player.player_id ≡ player_id
  pub paid : pos 0 <ℤ player.committed_this_hand
  pub in_hand : player.has_folded ≡ false
  pub shown : player.reached_showdown ≡ true

level_pot-IsWinner :
    (players : List PlayerContribution) (low high : ℤ)
    → pos 0 ≤ℤ low
    → All (IsWinner players) (level_pot players low high).eligible
unfolding level_pot
level_pot-IsWinner players low high nonneg =
    All-of_map (IsWinner players) (λ p. p.player_id) (select may_win (select (above low) players))
      (All-map
        (λ p h. record {
          player = p;
          listed = h.0.0;
          named = refl;
          paid = ground arith;
          in_hand = ground arith;
          shown = ground arith;
        })
        _
        (All-select _ may_win _
          (All-select (λ p. IsIn p players) (above low) players (All-IsIn players))))

-- Whoever may win a pot has not folded, has reached the showdown and has paid.
pub raw_pots-IsWinner :
    (players : List PlayerContribution) (low : ℤ) (todo : List PlayerContribution)
    → pos 0 ≤ℤ low
    → All (λ r. All (IsWinner players) r.eligible) (raw_pots players low todo)
unfolding raw_pots
raw_pots-IsWinner players low [] nonneg = tt
raw_pots-IsWinner players low (p ∷ todo) nonneg =
    elim (Bool-cases (leb_ℤ p.committed_this_hand low)) [
      | inl skip ↦ rw skip (raw_pots-IsWinner players low todo nonneg)
      | inr take ↦ rw take (
        level_pot-IsWinner players low p.committed_this_hand nonneg,
        raw_pots-IsWinner players p.committed_this_hand todo (omega (arith, ltb_of_leb p low take)),
      )
    ]

lt_not_leb :
    (low : ℤ) (q : PlayerContribution)
    → low <ℤ q.committed_this_hand
    → leb_ℤ q.committed_this_hand low ≡ false
lt_not_leb low q h = ground arith

IsIn-not_empty {ℓ} : {A : Type ℓ} {x : A} {xs : List A} → IsIn x xs → is_empty xs ≡ false
IsIn-not_empty (here xs) = refl
IsIn-not_empty (there y i) = refl

-- A player above the level who may win makes one of the pots live.
pub raw_pots_live :
    (players : List PlayerContribution) (low : ℤ) (q : PlayerContribution)
    {todo : List PlayerContribution}
    → IsIn q players
    → may_win q ≡ true
    → low <ℤ q.committed_this_hand
    → IsIn q todo
    → ¬ All (λ r. is_empty r.eligible ≡ true) (raw_pots players low todo)
unfolding raw_pots level_pot
raw_pots_live players low q listed wins paid (here todo) dead = cc (
  (rw (lt_not_leb low q paid) at dead).0,
  IsIn-not_empty (
      IsIn-map (λ (p : PlayerContribution). p.player_id)
        (IsIn-select may_win
          (IsIn-select (above low) listed (lt→ltb_ℤ low q.committed_this_hand paid)) wins)),
)
raw_pots_live players low q listed wins paid (there p {xs} i) dead =
    elim (Bool-cases (leb_ℤ p.committed_this_hand low)) [
      | inl skip ↦ raw_pots_live players low q listed wins paid i (rw skip at dead)
      | inr take ↦ cc (
        (rw take at dead).0,
        IsIn-not_empty (
            IsIn-map (λ (p : PlayerContribution). p.player_id)
              (IsIn-select may_win
                (IsIn-select (above low) listed (lt→ltb_ℤ low q.committed_this_hand paid)) wins)),
      )
    ]
