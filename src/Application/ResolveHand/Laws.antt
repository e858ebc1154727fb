-- ===== src/Application/ResolveHand/Laws.antt =====
-- What a resolved hand leaves.
use poker_room_backend.Prelude.{
  ℤ, pos, ◌+ℤ◌, ◌≤ℤ◌, ◌≡◌, refl, sym, ap, subst, ◌∙◌, List, int_laws, inl, inr, Bool-cases, All,
  All-map,
}
use poker_room_backend.Domain.Constants.{RoundStatus}
use poker_room_backend.Domain.Exceptions.{ok}
use poker_room_backend.Domain.Models.{Game}
use poker_room_backend.Engine.PayoutValidation.{PotPayout}
use poker_room_backend.Application.Rows.{HandRows, get_hand_state}
use poker_room_backend.Application.Consistency.{
  IsConsistent, ledger_pot, get_hand_state_pot, ledger_pot-append,
}
use poker_room_backend.Application.Snapshot.{sync_room_snapshot_players_from_round}
use poker_room_backend.Application.ResolveHand.{
  GameRows, ResolveIds, total_paid, pay_pots, complete_round, completed_entry, settle,
  finish_events, is_finished, resolve_hand,
}
use poker_room_backend.Application.ResolveHand.Paying.{ids_of, stacks, IsPayout, pay_pots-Paid}
use poker_room_backend.Application.ResolveHand.Accepted.{
  HasChips, resolve_hand-Resolved, accepted-IsPayout,
}

-- The hand once it is paid and closed; the events are left aside.
abbrev closed_hand : ResolveIds → List PotPayout → GameRows → HandRows
closed_hand ids ss t = complete_round ids (pay_pots ids ss (t.hand, t.payouts)).0

settled_hand :
    (ids : ResolveIds) (ss : List PotPayout) (t : GameRows)
    → ((settle ids ss t).hand.players ≡ (closed_hand ids ss t).players)
      × ((settle ids ss t).hand.round ≡ (closed_hand ids ss t).round)
      × ((settle ids ss t).hand.ledger ≡ (closed_hand ids ss t).ledger)
unfolding settle
settled_hand ids ss t = finished (settle ids ss t).game (closed_hand ids ss t)
  where
    finished :
        (g : Game) (rows : HandRows)
        → ((finish_events g rows).players ≡ rows.players)
          × ((finish_events g rows).round ≡ rows.round)
          × ((finish_events g rows).ledger ≡ rows.ledger)
    finished g rows = elim (Bool-cases (is_finished g.status)) [
      | inl over ↦ rw over (refl, refl, refl)
      | inr on ↦ rw on (refl, refl, refl)
    ]

pub settle_snapshot :
    (ids : ResolveIds) (ss : List PotPayout) (t : GameRows)
    → (settle ids ss t).snapshot
      ≡ (sync_room_snapshot_players_from_round (settle ids ss t).hand.players t.snapshot).0
unfolding settle
settle_snapshot ids ss t =
    ap (λ rps. (sync_room_snapshot_players_from_round rps t.snapshot).0)
      (sym (settled_hand ids ss t).0)

-- The parts of a resolved hand.
pub record IsSettled (t t' : GameRows) (paid : ℤ) : Type 0 where
  pub completed : t'.hand.round.status ≡ RoundStatus.completed
  pub stacks_moved : stacks t'.hand.players ≡ stacks t.hand.players +ℤ paid
  pub paid_from_pot : paid ≤ℤ t.hand.round.pot_amount
  pub ids_kept : ids_of t'.hand.players ≡ ids_of t.hand.players
  pub stacks_nonneg : All (λ rp. pos 0 ≤ℤ rp.stack_remaining) t'.hand.players
  pub pot_kept : t'.hand.round.pot_amount ≡ t.hand.round.pot_amount
  pub ledger_agrees : (get_hand_state t'.hand).pot_total ≡ t'.hand.round.pot_amount

settle-IsSettled :
    (ids : ResolveIds) (ss : List PotPayout) (t : GameRows)
    → IsConsistent t.hand
    → total_paid ss ≤ℤ t.hand.round.pot_amount
    → All (IsPayout t.hand.players) ss
    → IsSettled t (settle ids ss t) (total_paid ss)
settle-IsSettled ids ss t con no_more payouts =
    let paid = pay_pots-Paid ids ss t.hand t.payouts payouts in
    let (same_players, same_round, same_ledger) = settled_hand ids ss t in
    let hand = (pay_pots ids ss (t.hand, t.payouts)).0 in
    let same_pot = ap (λ r. r.pot_amount) same_round ∙ ap (λ r. r.pot_amount) paid.round_kept in
    record {
      completed = ap (λ r. r.status) same_round;
      stacks_moved = ap stacks same_players ∙ paid.stacks_moved;
      paid_from_pot = no_more;
      ids_kept = ap ids_of same_players ∙ paid.ids_kept;
      stacks_nonneg =
          subst (All (λ rp. pos 0 ≤ℤ rp.stack_remaining)) (sym same_players)
            (paid.nonneg_kept (All-map (λ q sq. sq.stack_nonneg) t.hand.players con.sound.players));
      pot_kept = same_pot;
      ledger_agrees =
          get_hand_state_pot (settle ids ss t).hand
          ∙ ap ledger_pot same_ledger
          ∙ ledger_pot-append hand.ledger (completed_entry ids hand.round)
          ∙ plus_zero (ledger_pot hand.ledger)
          ∙ paid.ledger_kept
          ∙ sym (get_hand_state_pot t.hand)
          ∙ con.ledger_agrees
          ∙ sym same_pot;
    }
  where
    plus_zero : (a : ℤ) → a +ℤ pos 0 ≡ a
    plus_zero a = omega int_laws

-- A hand with consistent rows that is resolved, each winner with at least a chip, is completed. Its
-- stacks grow by exactly what was paid, which is no more than the pot, no stack is negative, the
-- players are the same, and the ledger still accounts for the pot.
pub resolve_hand_lem :
    (ids : ResolveIds) (ss : List PotPayout) (t : GameRows) {t' : GameRows}
    → IsConsistent t.hand
    → All HasChips ss
    → resolve_hand ids ss t ≡ ok t'
    → IsSettled t t' (total_paid ss)
resolve_hand_lem ids ss t {t'} con chips h =
    let r = resolve_hand-Resolved ids ss t h in
    subst (λ x. IsSettled t x (total_paid ss)) (sym r.result)
      (settle-IsSettled ids ss t con r.no_more
        (accepted-IsPayout ss t.hand con chips r.no_more r.valid))
