-- ===== src/Reporting/SettlementExplainer.antt =====
-- services/game-service/app/domain/reporting/settlement_explainer.py, without the lines of text. The
-- reasons of a pot are listed by contributor; a label is the number behind it.
pub mod Laws
use poker_room_backend.Prelude.{
  ℕ, ℤ, pos, ◌+ℤ◌, ◌-ℤ◌, ◌≤ℤ◌, ◌≡◌, refl, sym, ap, ◌∙◌, String, Bool, true, false, not, Option,
  none, some, List, [], ◌∷◌, ◌++◌, map, str_eq, ◌==◌, if◌then◌else◌, sum_by, sum_by-map, All,
  int_laws, select,
}
use poker_room_backend.Engine.SidePots.{PlayerContribution, Pot, has_id, calculate_side_pots}
use poker_room_backend.Engine.SidePots.Laws.{pots_total, calculate_side_pots_total}
use poker_room_backend.Engine.PayoutValidation.{WinnerShare, PotPayout}

pub data Reason : Type 0 where
  folded did_not_reach_showdown ineligible : Reason

pub record PotExplanation : Type 0 where
  pub pot_index : ℕ
  pub amount : ℤ
  pub contributor_player_ids : List String
  pub eligible_player_ids : List String
  pub ineligible_reasons : List (String × Reason)
  pub winners : List WinnerShare
  pub awarded_total : ℤ
  pub unclaimed : ℤ

pub record SettlementExplanation : Type 0 where
  pub total_pot : ℤ
  pub total_awarded : ℤ
  pub total_unclaimed : ℤ
  pub pots : List PotExplanation

-- `payout_map.get(pot_index, [])`: the winners of the last payout with the index.
unfoldable pub pot_winners : List PotPayout → ℕ → List WinnerShare → List WinnerShare
pot_winners [] index found = found
pot_winners (s ∷ ss) index found =
    pot_winners ss index (if s.pot_index == index then s.winners else found)

-- `player_status.get(cid)`: the last contribution of the player.
unfoldable pub player_status :
    List PlayerContribution → String → Option PlayerContribution → Option PlayerContribution
player_status [] cid found = found
player_status (c ∷ cs) cid found =
    player_status cs cid (if str_eq c.player_id cid then some c else found)

abbrev pub reason_of : Option PlayerContribution → Reason
reason_of none = Reason.ineligible
reason_of (some pc) =
    if pc.has_folded
    then Reason.folded
    else if not pc.reached_showdown
    then Reason.did_not_reach_showdown
    else Reason.ineligible

unfoldable pub ineligible_reasons :
    List PlayerContribution → List String → List String → List (String × Reason)
ineligible_reasons contributions eligible_set [] = []
ineligible_reasons contributions eligible_set (cid ∷ cids) =
    let rest = ineligible_reasons contributions eligible_set cids in
    if not (has_id cid eligible_set)
    then (cid, reason_of (player_status contributions cid none)) ∷ rest
    else rest

abbrev pub explain_pot : List PlayerContribution → List PotPayout → Pot → PotExplanation
explain_pot contributions submitted_payouts pot =
    let winners = pot_winners submitted_payouts pot.pot_index [] in
    let awarded = sum_by (λ w. w.amount) winners in
    record {
      pot_index = pot.pot_index;
      amount = pot.amount;
      contributor_player_ids = pot.contributor_player_ids;
      eligible_player_ids = pot.eligible_winner_player_ids;
      ineligible_reasons =
          ineligible_reasons contributions pot.eligible_winner_player_ids
            pot.contributor_player_ids;
      winners = winners;
      awarded_total = awarded;
      unclaimed = pot.amount -ℤ awarded;
    }

-- The loop over the pots, on the two running totals.
unfoldable pub explain_pots :
    List PlayerContribution
    → List PotPayout
    → List Pot
    → SettlementExplanation
    → SettlementExplanation
explain_pots contributions submitted_payouts [] result = result
explain_pots contributions submitted_payouts (pot ∷ pots) result =
    let pot_exp = explain_pot contributions submitted_payouts pot in
    explain_pots contributions submitted_payouts pots (record {
      total_pot = result.total_pot +ℤ pot.amount;
      total_awarded = result.total_awarded +ℤ pot_exp.awarded_total;
      total_unclaimed = result.total_unclaimed;
      pots = result.pots ++ pot_exp ∷ [];
    })

abbrev pub no_explanation : SettlementExplanation
no_explanation = record {
  total_pot = pos 0;
  total_awarded = pos 0;
  total_unclaimed = pos 0;
  pots = [];
}

unfoldable pub explain_settlement : List PlayerContribution → List PotPayout → SettlementExplanation
explain_settlement contributions submitted_payouts =
    let result =
      explain_pots contributions submitted_payouts (calculate_side_pots contributions)
        no_explanation in
    record result { total_unclaimed = result.total_pot -ℤ result.total_awarded }
