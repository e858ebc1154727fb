-- ===== src/Engine/SidePots/Laws.antt =====
-- What the pots of a hand add up to, and who may win them.
use poker_room_backend.Prelude.{
  ℕ, suc, ◌+◌, ℤ, pos, ◌+ℤ◌, ◌≤ℤ◌, ◌<ℤ◌, ◌≡◌, refl, ap, ◌∙◌, String, true, false, some, List, [],
  ◌∷◌, inl, inr, arith, int_laws, get_elem?, sum_by, All, All-map, All-at, All-IsIn, IsIn, zero,
}
use poker_room_backend.Prelude.Sorting.{
  sorted, sorted-Ascending, sum_by-sorted, All-sorted, IsIn-sorted,
}
use poker_room_backend.Engine.SidePots.{
  PlayerContribution, Pot, RawPot, is_empty, may_win, raw_pots, merge_dead_pots, number_pots,
  calculate_side_pots,
}
use poker_room_backend.Engine.SidePots.Levels.{
  excess, raw_pots_total, raw_pots_nonneg, IsWinner, raw_pots-IsWinner, raw_pots_live,
}
use poker_room_backend.Engine.SidePots.Merging.{
  raw_total, merge_dead_pots_total, merge_dead_pots-Winners, IsLive, merge_dead_pots-IsLive,
}

abbrev pub pots_total : List Pot → ℤ
pots_total = sum_by (λ p. p.amount)

number_pots_total : (i : ℕ) (pots : List RawPot) → pots_total (number_pots i pots) ≡ raw_total pots
unfolding number_pots
number_pots_total i [] = refl
number_pots_total i (p ∷ ps) = ap (◌+ℤ◌ p.amount) (number_pots_total (suc i) ps)

number_pots-Winners :
    (P : String → Type 0) (i : ℕ) (pots : List RawPot)
    → All (λ r. All P r.eligible) pots
    → All (λ p. All P p.eligible_winner_player_ids) (number_pots i pots)
unfolding number_pots
number_pots-Winners P i [] h = tt
number_pots-Winners P i (p ∷ ps) h = (h.0, number_pots-Winners P (suc i) ps h.1)

excess_nonneg :
    (ps : List PlayerContribution)
    → All (λ p. pos 0 ≤ℤ p.committed_this_hand) ps
    → sum_by (excess (pos 0)) ps ≡ sum_by (λ p. p.committed_this_hand) ps
excess_nonneg [] h = refl
excess_nonneg (p ∷ ps) h = rw (excess_nonneg ps h.1) (grind int_laws)

-- When no commitment is negative, the side pots add up to exactly what the players have committed.
pub calculate_side_pots_total :
    (players : List PlayerContribution)
    → All (λ p. pos 0 ≤ℤ p.committed_this_hand) players
    → pots_total (calculate_side_pots players) ≡ sum_by (λ p. p.committed_this_hand) players
unfolding calculate_side_pots
calculate_side_pots_total players h =
    let key = λ (p : PlayerContribution). p.committed_this_hand in
    let s = sorted key players in
    number_pots_total 0 (merge_dead_pots (raw_pots s (pos 0) s))
    ∙ merge_dead_pots_total (raw_pots s (pos 0) s) (raw_pots_nonneg s (pos 0) s)
    ∙ raw_pots_total s (pos 0) s (sorted-Ascending key players) (λ level le. refl)
    ∙ sum_by-sorted (excess (pos 0)) key players
    ∙ excess_nonneg players h

sorted-IsWinner :
    (players : List PlayerContribution) (player_id : String)
    → IsWinner (sorted (λ p. p.committed_this_hand) players) player_id
    → IsWinner players player_id
sorted-IsWinner players player_id w = record {
  player = w.player;
  listed =
      All-at (λ p. IsIn p players)
        (All-sorted _ (λ p. p.committed_this_hand) players (All-IsIn players)) w.listed;
  named = w.named;
  paid = w.paid;
  in_hand = w.in_hand;
  shown = w.shown;
}

-- Whoever is eligible to win a pot is a player who has not folded, has reached the showdown and has
-- put chips in.
pub calculate_side_pots-IsWinner :
    (players : List PlayerContribution)
    → All (λ p. All (IsWinner players) p.eligible_winner_player_ids) (calculate_side_pots players)
unfolding calculate_side_pots
calculate_side_pots-IsWinner players =
    let key = λ (p : PlayerContribution). p.committed_this_hand in
    let s = sorted key players in
    number_pots-Winners (IsWinner players) 0 (merge_dead_pots (raw_pots s (pos 0) s)) (
      merge_dead_pots-Winners (IsWinner players) (raw_pots s (pos 0) s) (
        All-map (λ r h. All-map (sorted-IsWinner players) r.eligible h) (raw_pots s (pos 0) s)
          (raw_pots-IsWinner s (pos 0) s (omega arith))))

-- The pots are numbered from 0 in order.
pub number_pots-index :
    (i k : ℕ) (pots : List RawPot) (p : Pot)
    → get_elem? (number_pots i pots) k ≡ some p
    → p.pot_index ≡ i + k
unfolding number_pots
number_pots-index i k [] p h = cc
number_pots-index i zero (q ∷ qs) p h = ground arith
number_pots-index i (suc k) (q ∷ qs) p h = omega (arith, number_pots-index (suc i) k qs p h)

number_pots-IsLive :
    (i : ℕ) (pots : List RawPot)
    → All IsLive pots
    → All (λ p. is_empty p.eligible_winner_player_ids ≡ false) (number_pots i pots)
unfolding number_pots
number_pots-IsLive i [] h = tt
number_pots-IsLive i (p ∷ ps) h = (h.0, number_pots-IsLive (suc i) ps h.1)

-- If a player who has put chips in may win, every pot has someone who may win it.
pub calculate_side_pots_live :
    (players : List PlayerContribution) (q : PlayerContribution)
    → IsIn q players
    → may_win q ≡ true
    → pos 0 <ℤ q.committed_this_hand
    → All (λ p. is_empty p.eligible_winner_player_ids ≡ false) (calculate_side_pots players)
unfolding calculate_side_pots
calculate_side_pots_live players q listed wins paid =
    let key = λ (p : PlayerContribution). p.committed_this_hand in
    let s = sorted key players in
    let q_in_s = IsIn-sorted key listed in
    number_pots-IsLive 0 (merge_dead_pots (raw_pots s (pos 0) s))
      (elim (merge_dead_pots-IsLive (raw_pots s (pos 0) s)) [
        | inl live ↦ live
        | inr dead ↦ absurd (raw_pots_live s (pos 0) q q_in_s wins paid q_in_s dead)
      ])
