-- ===== src/Engine/PayoutValidation.antt =====
-- services/game-service/app/domain/engine/payout_validation.py: submitted payouts against the pots.
pub mod Laws
use poker_room_backend.Prelude.{
  ℕ, ℤ, String, Bool, not, ◌&&◌, Option, none, some, List, [], ◌∷◌, map, ◌==◌, ltb_ℤ, if◌then◌else◌,
  find_first, sum_by,
}
use poker_room_backend.Domain.Exceptions.{DomainError, Result, ok, err, ◌>>=◌, ◌>>◌, raise_if}
use poker_room_backend.Domain.Models.{RoundPlayer}
use poker_room_backend.Engine.SidePots.{
  PlayerContribution, Pot, calculate_side_pots, has_id, is_empty,
}

pub record WinnerShare : Type 0 where
  pub player_id : String
  pub amount : ℤ

pub record PotPayout : Type 0 where
  pub pot_index : ℕ
  pub pot_type : String
  pub amount : ℤ
  pub winners : List WinnerShare

abbrev pub contribution : RoundPlayer → PlayerContribution
contribution rp = record {
  player_id = rp.player_id;
  committed_this_hand = rp.committed_this_hand;
  has_folded = rp.has_folded;
  reached_showdown = not rp.has_folded && rp.is_active_in_hand;
}

-- `sum(w["amount"] for w in submitted["winners"])`
abbrev pub winners_total : PotPayout → ℤ
winners_total s = sum_by (λ w. w.amount) s.winners

unfoldable pub check_winners : List String → List WinnerShare → Result (Unit {0})
check_winners eligible [] = ok tt
check_winners eligible (w ∷ ws) =
    raise_if (not (has_id w.player_id eligible)) DomainError.payout_mismatch
    >> check_winners eligible ws

-- The body of the loop, with the pot of the submitted index.
unfoldable pub check_payout : Option Pot → PotPayout → Result (Unit {0})
check_payout none submitted = err DomainError.payout_mismatch
check_payout (some computed) submitted =
    raise_if (ltb_ℤ computed.amount (winners_total submitted)) DomainError.payout_exceeds_pot
    >> check_winners computed.eligible_winner_player_ids submitted.winners

-- `computed_map.get(idx)`
unfoldable pub pot_at : List Pot → ℕ → Option Pot
pot_at pots idx = find_first (λ p. p.pot_index == idx) pots

unfoldable pub check_payouts : List Pot → List PotPayout → Result (Unit {0})
check_payouts pots [] = ok tt
check_payouts pots (s ∷ ss) = check_payout (pot_at pots s.pot_index) s >> check_payouts pots ss

-- `total_pot` is read by nothing.
unfoldable pub validate_payouts_against_side_pots :
    List RoundPlayer → List PotPayout → ℤ → Result (List Pot)
unfolding check_winners check_payout check_payouts
validate_payouts_against_side_pots round_players submitted_payouts total_pot =
    let computed = calculate_side_pots (map contribution round_players) in
    if is_empty computed
    then ok computed
    else check_payouts computed submitted_payouts >> ok computed
