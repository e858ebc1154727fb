-- ===== src/Application/ResolveHand/Corrected.antt =====
-- A payout of a resolved hand that is corrected: `CorrectionCommandService.correct_payout`
-- (services/game-service/app/application/commands/correction_command_service.py).
use poker_room_backend.Prelude.{
  ℤ, pos, ◌+ℤ◌, ◌-ℤ◌, ◌≡◌, refl, sym, ap, ◌∙◌, String, true, List, map_option, int_laws, str_eq,
  sum_by-change_first, sum_by-change_first_kept, map-change_first,
}
use poker_room_backend.Domain.Models.{RoundPlayer}
use poker_room_backend.Engine.ActionPipeline.Conservation.{committed}
use poker_room_backend.Engine.SidePots.{has_id}
use poker_room_backend.Application.Rows.{HandRows, change_row, get_hand_state}
use poker_room_backend.Application.Consistency.{ledger_pot, ledger_pot-append, get_hand_state_pot}
use poker_room_backend.Application.Corrections.{
  Correction, PayoutCorrection, add_chips, correct_payout,
}
use poker_room_backend.Application.ResolveHand.Paying.{ids_of, stacks, has_id-Seated}
use poker_room_backend.Application.ResolveHand.Shares.{with_share, row_of, shared_chips}

-- Chips that are added to the row of one player, who is in the hand.
stacks-add_chips :
    (player_id : String) (amount : ℤ) (rps : List RoundPlayer)
    → has_id player_id (ids_of rps) ≡ true
    → stacks (change_row player_id (add_chips amount) rps) ≡ stacks rps +ℤ amount
stacks-add_chips player_id amount rps h =
    let (rp, found) = has_id-Seated player_id rps h in
    sum_by-change_first (λ q. q.stack_remaining) amount (λ q. str_eq q.player_id player_id)
      (add_chips amount) rps refl found

ids-add_chips :
    (player_id : String) (amount : ℤ) (rps : List RoundPlayer)
    → ids_of (change_row player_id (add_chips amount) rps) ≡ ids_of rps
ids-add_chips player_id amount rps =
    map-change_first (λ q. q.player_id) _ (add_chips amount) rps (λ q. refl)

committed-add_chips :
    (player_id : String) (amount : ℤ) (rps : List RoundPlayer)
    → committed (change_row player_id (add_chips amount) rps) ≡ committed rps
committed-add_chips player_id amount rps =
    sum_by-change_first_kept (λ q. q.committed_this_hand) _ (add_chips amount) rps (λ q. refl)

-- What a corrected payout changes.
pub record IsCorrected (p : PayoutCorrection) (rows rows' : HandRows) : Type 0 where
  pub shared :
      (player_id : String)
      → row_of player_id rows'.players ≡ map_option (with_share p) (row_of player_id rows.players)
  pub stacks_moved : stacks rows'.players +ℤ p.old_amount ≡ stacks rows.players +ℤ p.new_amount
  pub ids_kept : ids_of rows'.players ≡ ids_of rows.players
  pub committed_kept : committed rows'.players ≡ committed rows.players
  pub round_kept : rows'.round ≡ rows.round
  pub ledger_kept : (get_hand_state rows').pot_total ≡ (get_hand_state rows).pot_total

-- A corrected payout, between players of the hand, takes the old amount from the stack of the old player
-- and adds the new amount to that of the new player, who may be the same: the row that is found for any
-- id is as it was but for this share of its stack. The sum of the stacks moves by the two amounts; the
-- ids, what the players committed, the round and the pot of the ledger are the same.
pub correct_payout_lem :
    (c : Correction) (p : PayoutCorrection) (rows : HandRows)
    → has_id p.old_player_id (ids_of rows.players) ≡ true
    → has_id p.new_player_id (ids_of rows.players) ≡ true
    → IsCorrected p rows (correct_payout c p rows)
unfolding correct_payout
correct_payout_lem c p rows old new =
    let taken = change_row p.old_player_id (add_chips (pos 0 -ℤ p.old_amount)) rows.players in
    let same_ids = ids-add_chips p.old_player_id (pos 0 -ℤ p.old_amount) rows.players in
    record {
      shared = λ player_id. shared_chips p player_id rows.players;
      stacks_moved =
          ap (λ x. x +ℤ p.old_amount)
            (stacks-add_chips p.new_player_id p.new_amount taken
                (ap (has_id p.new_player_id) same_ids ∙ new)
              ∙ ap (λ x. x +ℤ p.new_amount)
                  (stacks-add_chips p.old_player_id (pos 0 -ℤ p.old_amount) rows.players old))
          ∙ balance (stacks rows.players) p.old_amount p.new_amount;
      ids_kept = ids-add_chips p.new_player_id p.new_amount taken ∙ same_ids;
      committed_kept =
          committed-add_chips p.new_player_id p.new_amount taken
          ∙ committed-add_chips p.old_player_id (pos 0 -ℤ p.old_amount) rows.players;
      round_kept = refl;
      ledger_kept =
          get_hand_state_pot (correct_payout c p rows)
          ∙ ledger_pot-append rows.ledger _
          ∙ plus_zero (ledger_pot rows.ledger)
          ∙ sym (get_hand_state_pot rows);
    }
  where
    balance : (s a b : ℤ) → ((s +ℤ (pos 0 -ℤ a)) +ℤ b) +ℤ a ≡ s +ℤ b
    balance s a b = omega int_laws

    plus_zero : (a : ℤ) → a +ℤ pos 0 ≡ a
    plus_zero a = omega int_laws
