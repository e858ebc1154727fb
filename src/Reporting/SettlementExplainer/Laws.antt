-- ===== src/Reporting/SettlementExplainer/Laws.antt =====
-- The totals of an explained settlement.
use poker_room_backend.Prelude.{
  ℤ, pos, ◌+ℤ◌, ◌-ℤ◌, ◌≤ℤ◌, ◌≡◌, sym, ap, ap₂, ◌∙◌, List, [], ◌∷◌, ◌++◌, map, sum_by, sum_by-map,
  All, int_laws,
}
use mathlib.Core.List.{append-nil, append_assoc}
use poker_room_backend.Engine.SidePots.{PlayerContribution, Pot, calculate_side_pots}
use poker_room_backend.Engine.SidePots.Laws.{pots_total, calculate_side_pots_total}
use poker_room_backend.Engine.PayoutValidation.{PotPayout}
use poker_room_backend.Reporting.SettlementExplainer.{
  SettlementExplanation, explain_pot, explain_pots, explain_settlement, no_explanation,
}

-- The loop as a map and two sums.
explain_pots-eq :
    (cs : List PlayerContribution) (ss : List PotPayout) (pots : List Pot)
    (e : SettlementExplanation)
    → ((explain_pots cs ss pots e).pots ≡ e.pots ++ map (explain_pot cs ss) pots)
      × ((explain_pots cs ss pots e).total_pot ≡ e.total_pot +ℤ pots_total pots)
      × ((explain_pots cs ss pots e).total_awarded
          ≡ e.total_awarded +ℤ sum_by (λ p. (explain_pot cs ss p).awarded_total) pots)
unfolding explain_pots
explain_pots-eq cs ss [] e =
    (sym (append-nil e.pots), plus_zero e.total_pot, plus_zero e.total_awarded)
  where
    plus_zero : (a : ℤ) → a ≡ a +ℤ pos 0
    plus_zero a = omega int_laws
explain_pots-eq cs ss (p ∷ pots) e =
    let exp = explain_pot cs ss p in
    let (same_pots, same_total, same_awarded) = explain_pots-eq cs ss pots record {
      total_pot = e.total_pot +ℤ p.amount;
      total_awarded = e.total_awarded +ℤ exp.awarded_total;
      total_unclaimed = e.total_unclaimed;
      pots = e.pots ++ exp ∷ [];
    } in
    (
      same_pots ∙ append_assoc e.pots (exp ∷ []) (map (explain_pot cs ss) pots),
      same_total ∙ regroup e.total_pot p.amount (pots_total pots),
      same_awarded
          ∙ regroup e.total_awarded exp.awarded_total
              (sum_by (λ q. (explain_pot cs ss q).awarded_total) pots),
    )
  where
    regroup : (a b c : ℤ) → (a +ℤ b) +ℤ c ≡ a +ℤ (b +ℤ c)
    regroup a b c = omega int_laws

-- What the pots leave unclaimed together.
unclaimed_total :
    (cs : List PlayerContribution) (ss : List PotPayout) (pots : List Pot)
    → sum_by (λ e. e.unclaimed) (map (explain_pot cs ss) pots)
      ≡ pots_total pots -ℤ sum_by (λ p. (explain_pot cs ss p).awarded_total) pots
unclaimed_total cs ss [] = omega int_laws
unclaimed_total cs ss (p ∷ pots) =
    let exp = explain_pot cs ss p in
    ap (λ x. exp.unclaimed +ℤ x) (unclaimed_total cs ss pots)
    ∙ regroup p.amount exp.awarded_total (pots_total pots)
        (sum_by (λ q. (explain_pot cs ss q).awarded_total) pots)
  where
    regroup : (a b c d : ℤ) → (a -ℤ b) +ℤ (c -ℤ d) ≡ (a +ℤ c) -ℤ (b +ℤ d)
    regroup a b c d = omega int_laws

-- What the totals of an explained settlement are.
pub record IsBalanced (cs : List PlayerContribution) (e : SettlementExplanation) : Type 0 where
  pub whole_pot : e.total_pot ≡ sum_by (λ c. c.committed_this_hand) cs
  pub pots_add_up : e.total_pot ≡ sum_by (λ p. p.amount) e.pots
  pub awarded_adds_up : e.total_awarded ≡ sum_by (λ p. p.awarded_total) e.pots
  pub unclaimed_adds_up : e.total_unclaimed ≡ sum_by (λ p. p.unclaimed) e.pots
  pub nothing_left : e.total_awarded +ℤ e.total_unclaimed ≡ e.total_pot

-- An explained settlement accounts for every chip: its pots hold exactly what the players committed to
-- the hand, each total is the sum of its column over the pots, and what is awarded and what is unclaimed
-- make up the whole pot.
pub explain_settlement_lem :
    (cs : List PlayerContribution) (ss : List PotPayout)
    → All (λ c. pos 0 ≤ℤ c.committed_this_hand) cs
    → IsBalanced cs (explain_settlement cs ss)
unfolding explain_settlement
explain_settlement_lem cs ss nonneg =
    let pots = calculate_side_pots cs in
    let (same_pots, same_total, same_awarded) = explain_pots-eq cs ss pots no_explanation in
    let total = same_total ∙ zero_plus (pots_total pots) in
    let awarded =
      same_awarded ∙ zero_plus (sum_by (λ q. (explain_pot cs ss q).awarded_total) pots) in
    record {
      whole_pot = total ∙ calculate_side_pots_total cs nonneg;
      pots_add_up =
          total
          ∙ sym (
              ap (sum_by (λ p. p.amount)) same_pots
              ∙ sum_by-map (explain_pot cs ss) (λ p. p.amount) pots);
      awarded_adds_up =
          awarded
          ∙ sym (
              ap (sum_by (λ p. p.awarded_total)) same_pots
              ∙ sum_by-map (explain_pot cs ss) (λ p. p.awarded_total) pots);
      unclaimed_adds_up =
          ap₂ ◌-ℤ◌ total awarded
          ∙ sym (ap (sum_by (λ p. p.unclaimed)) same_pots ∙ unclaimed_total cs ss pots);
      nothing_left = fills _ _;
    }
  where
    zero_plus : (a : ℤ) → pos 0 +ℤ a ≡ a
    zero_plus a = omega int_laws

    fills : (a b : ℤ) → b +ℤ (a -ℤ b) ≡ a
    fills a b = omega int_laws
