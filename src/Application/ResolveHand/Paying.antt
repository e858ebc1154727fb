-- ===== src/Application/ResolveHand/Paying.antt =====
-- The loops of `resolve_hand` that pay the winners
-- (services/game-service/app/application/commands/game_command_service.py).
use poker_room_backend.Prelude.{
  ℤ, pos, ◌+ℤ◌, ◌≤ℤ◌, ◌<ℤ◌, ◌≡◌, refl, ap, ◌∙◌, String, true, List, [], ◌∷◌, map, arith, int_laws,
  inl, inr, Bool-cases, str_eq, sum_by, sum_by-change_first, sum_by-change_first_kept, All, All-map,
  All-change_first, map-change_first,
}
use poker_room_backend.Domain.Models.{RoundPlayer, RoundPayout}
use poker_room_backend.Engine.ActionPipeline.Conservation.{committed}
use poker_room_backend.Engine.SidePots.{has_id}
use poker_room_backend.Engine.PayoutValidation.{WinnerShare, PotPayout}
use poker_room_backend.Application.Rows.{HandRows, Seated}
use poker_room_backend.Application.Consistency.{ledger_pot, ledger_pot-append}
use poker_room_backend.Application.Corrections.{add_chips}
use poker_room_backend.Application.ResolveHand.{
  ResolveIds, payout_entry, pay_winner, pay_winners, pay_pots, total_paid,
}

abbrev pub ids_of : List RoundPlayer → List String
ids_of = map (λ rp. rp.player_id)

abbrev pub stacks : List RoundPlayer → ℤ
stacks = sum_by (λ rp. rp.stack_remaining)

abbrev pub IsWinnerSeated : List RoundPlayer → WinnerShare → Type 0
IsWinnerSeated rps w = has_id w.player_id (ids_of rps) ≡ true

-- What paying `amount` chips out of the pot changes and keeps.
pub record Paid (rows rows' : HandRows) (amount : ℤ) : Type 0 where
  pub stacks_moved : stacks rows'.players ≡ stacks rows.players +ℤ amount
  pub ids_kept : ids_of rows'.players ≡ ids_of rows.players
  pub committed_kept : committed rows'.players ≡ committed rows.players
  pub round_kept : rows'.round ≡ rows.round
  pub ledger_kept : ledger_pot rows'.ledger ≡ ledger_pot rows.ledger
  pub nonneg_kept :
      All (λ rp. pos 0 ≤ℤ rp.stack_remaining) rows.players
      → All (λ rp. pos 0 ≤ℤ rp.stack_remaining) rows'.players

pub has_id-Seated :
    (player_id : String) (rps : List RoundPlayer)
    → has_id player_id (ids_of rps) ≡ true
    → (rp : RoundPlayer) × Seated player_id rps rp
unfolding has_id
has_id-Seated player_id [] h = ground arith
has_id-Seated player_id (rp ∷ rps) h = elim (Bool-cases (str_eq rp.player_id player_id)) [
  | inl it ↦ (rp, rw it refl)
  | inr other ↦
      (let (q, found) = has_id-Seated player_id rps (rw other at h) in (q, rw other found))
]

Paid-none : (rows : HandRows) → Paid rows rows (pos 0)
Paid-none rows = record {
  stacks_moved = omega int_laws;
  ids_kept = refl;
  committed_kept = refl;
  round_kept = refl;
  ledger_kept = refl;
  nonneg_kept = λ h. h;
}

Paid-trans :
    {rows rows' rows'' : HandRows} {a b : ℤ}
    → Paid rows rows' a
    → Paid rows' rows'' b
    → Paid rows rows'' (a +ℤ b)
Paid-trans {rows} {rows'} {rows''} {a} {b} p q = record {
  stacks_moved =
      q.stacks_moved ∙ ap (λ x. x +ℤ b) p.stacks_moved ∙ regroup (stacks rows.players) a b;
  ids_kept = q.ids_kept ∙ p.ids_kept;
  committed_kept = q.committed_kept ∙ p.committed_kept;
  round_kept = q.round_kept ∙ p.round_kept;
  ledger_kept = q.ledger_kept ∙ p.ledger_kept;
  nonneg_kept = λ h. q.nonneg_kept (p.nonneg_kept h);
}
  where
    regroup : (x a b : ℤ) → (x +ℤ a) +ℤ b ≡ x +ℤ (a +ℤ b)
    regroup x a b = omega int_laws

pay_winner-Paid :
    (ids : ResolveIds) (pot : PotPayout) (w : WinnerShare) (rows : HandRows)
    → IsWinnerSeated rows.players w
    → pos 0 <ℤ w.amount
    → Paid rows (pay_winner ids pot w rows) w.amount
pay_winner-Paid ids pot w rows seated positive =
    let (rp, found) = has_id-Seated w.player_id rows.players seated in
    record {
      stacks_moved =
          sum_by-change_first (λ q. q.stack_remaining) w.amount
            (λ q. str_eq q.player_id w.player_id) (add_chips w.amount) rows.players refl found;
      ids_kept =
          map-change_first (λ q. q.player_id) _ (add_chips w.amount) rows.players (λ q. refl);
      committed_kept =
          sum_by-change_first_kept (λ q. q.committed_this_hand) _ (add_chips w.amount) rows.players
            (λ q. refl);
      round_kept = refl;
      ledger_kept =
          ledger_pot-append rows.ledger (payout_entry ids rows.round.round_id pot w)
          ∙ plus_zero (ledger_pot rows.ledger);
      nonneg_kept = λ h.
          All-change_first (λ q. pos 0 ≤ℤ q.stack_remaining) _ (add_chips w.amount) rows.players
            (λ q nonneg. grows q.stack_remaining w.amount nonneg positive) h;
    }
  where
    plus_zero : (a : ℤ) → a +ℤ pos 0 ≡ a
    plus_zero a = omega int_laws

    grows : (a b : ℤ) → pos 0 ≤ℤ a → pos 0 <ℤ b → pos 0 ≤ℤ a +ℤ b
    grows a b h k = omega int_laws

-- Every winner of a payout sits in the hand and gets at least a chip.
abbrev pub IsPayout : List RoundPlayer → PotPayout → Type 0
IsPayout rps s = All (λ w. IsWinnerSeated rps w × (pos 0 <ℤ w.amount)) s.winners

still_seated :
    (rps rps' : List RoundPlayer) (ws : List WinnerShare)
    → ids_of rps' ≡ ids_of rps
    → All (λ w. IsWinnerSeated rps w × (pos 0 <ℤ w.amount)) ws
    → All (λ w. IsWinnerSeated rps' w × (pos 0 <ℤ w.amount)) ws
still_seated rps rps' ws same h = All-map (λ w hw. (ap (has_id w.player_id) same ∙ hw.0, hw.1)) ws h

pub pay_winners-Paid :
    (ids : ResolveIds) (pot : PotPayout) (ws : List WinnerShare) (rows : HandRows)
    (paid : List RoundPayout)
    → All (λ w. IsWinnerSeated rows.players w × (pos 0 <ℤ w.amount)) ws
    → Paid rows (pay_winners ids pot ws (rows, paid)).0 (sum_by (λ w. w.amount) ws)
unfolding pay_winners
pay_winners-Paid ids pot [] rows paid h = Paid-none rows
pay_winners-Paid ids pot (w ∷ ws) rows paid h =
    let first = pay_winner-Paid ids pot w rows h.0.0 h.0.1 in
    Paid-trans first (
      pay_winners-Paid ids pot ws (pay_winner ids pot w rows) _
        (still_seated rows.players (pay_winner ids pot w rows).players ws first.ids_kept h.1))

pub pay_pots-Paid :
    (ids : ResolveIds) (ss : List PotPayout) (rows : HandRows) (paid : List RoundPayout)
    → All (IsPayout rows.players) ss
    → Paid rows (pay_pots ids ss (rows, paid)).0 (total_paid ss)
unfolding pay_pots
pay_pots-Paid ids [] rows paid h = Paid-none rows
pay_pots-Paid ids (s ∷ ss) rows paid h =
    let first = pay_winners-Paid ids s s.winners rows paid h.0 in
    let t = pay_winners ids s s.winners (rows, paid) in
    Paid-trans first (
      pay_pots-Paid ids ss t.0 t.1 (
        All-map (λ s' h'. still_seated rows.players t.0.players s'.winners first.ids_kept h') ss
          h.1))
