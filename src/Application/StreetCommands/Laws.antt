-- ===== src/Application/StreetCommands/Laws.antt =====
-- Moving to the next street keeps the rows of the hand consistent and every chip on the table.
use poker_room_backend.Prelude.{
  ℤ, pos, ◌+ℤ◌, ◌≡◌, refl, sym, ap, subst, ◌∙◌, not, List, [], ◌∷◌, map, arith, int_laws, sum_by,
  All,
}
use poker_room_backend.Domain.Constants.{StreetAdvanceAction, GameEventType, round_is_active}
use poker_room_backend.Domain.Exceptions.{ok, raise_if-eq-ok}
use poker_room_backend.Domain.Models.{RoundPlayer}
use poker_room_backend.Engine.ActionPipeline.Invariant.{IsSound, IsSoundPlayer, version_grows}
use poker_room_backend.Engine.StreetProgression.{StreetAdvanceResult}
use poker_room_backend.Application.Rows.{HandRows, add_event, get_hand_state}
use poker_room_backend.Application.Consistency.{
  IsConsistent, chips_of, ledger_pot, get_hand_state_pot,
}
use poker_room_backend.Application.StreetCommands.{
  clear_street, is_showdown, write_street, street_end, advance_street,
}

sum_by-clear_street :
    (f : RoundPlayer → ℤ)
    → ((rp : RoundPlayer) → f (clear_street rp) ≡ f rp)
    → (rps : List RoundPlayer) → sum_by f (map clear_street rps) ≡ sum_by f rps
sum_by-clear_street f kept [] = refl
sum_by-clear_street f kept (rp ∷ rps) = rw (kept rp, sum_by-clear_street f kept rps) refl

clear_street-IsSoundPlayer :
    (h : ℤ) (rp : RoundPlayer) → IsSoundPlayer h rp → IsSoundPlayer (pos 0) (clear_street rp)
clear_street-IsSoundPlayer h rp s = grind int_laws

cleared :
    (h : ℤ) (rps : List RoundPlayer)
    → All (IsSoundPlayer h) rps
    → All (IsSoundPlayer (pos 0)) (map clear_street rps)
cleared h [] s = tt
cleared h (rp ∷ rps) s = (clear_street-IsSoundPlayer h rp s.0, cleared h rps s.1)

write_street-IsSound :
    (res : StreetAdvanceResult) (action : StreetAdvanceAction) (rows : HandRows)
    → IsSound rows.round rows.players
    → IsSound (write_street res action rows).round (write_street res action rows).players
unfolding write_street
write_street-IsSound res StreetAdvanceAction.settle_hand rows s = record {
  highest_nonneg = s.highest_nonneg;
  min_raise_nonneg = s.min_raise_nonneg;
  version_pos = version_grows _ s.version_pos;
  big_blind_nonneg = s.big_blind_nonneg;
  pot-eq-committed = s.pot-eq-committed;
  players = s.players;
}
write_street-IsSound res StreetAdvanceAction.showdown rows s = record {
  highest_nonneg = omega arith;
  min_raise_nonneg = s.min_raise_nonneg;
  version_pos = version_grows _ s.version_pos;
  big_blind_nonneg = s.big_blind_nonneg;
  pot-eq-committed =
      s.pot-eq-committed
      ∙ sym (sum_by-clear_street (λ rp. rp.committed_this_hand) (λ rp. refl) rows.players);
  players = cleared rows.round.current_highest_bet rows.players s.players;
}
write_street-IsSound res StreetAdvanceAction.next_street rows s = record {
  highest_nonneg = omega arith;
  min_raise_nonneg = s.big_blind_nonneg;
  version_pos = version_grows _ s.version_pos;
  big_blind_nonneg = s.big_blind_nonneg;
  pot-eq-committed =
      s.pot-eq-committed
      ∙ sym (sum_by-clear_street (λ rp. rp.committed_this_hand) (λ rp. refl) rows.players);
  players = cleared rows.round.current_highest_bet rows.players s.players;
}

write_street-chips :
    (res : StreetAdvanceResult) (action : StreetAdvanceAction) (rows : HandRows)
    → chips_of (write_street res action rows) ≡ chips_of rows
unfolding write_street
write_street-chips res StreetAdvanceAction.settle_hand rows = refl
write_street-chips res StreetAdvanceAction.showdown rows =
    ap (λ x. x +ℤ rows.round.pot_amount)
      (sum_by-clear_street (λ rp. rp.stack_remaining) (λ rp. refl) rows.players)
write_street-chips res StreetAdvanceAction.next_street rows =
    ap (λ x. x +ℤ rows.round.pot_amount)
      (sum_by-clear_street (λ rp. rp.stack_remaining) (λ rp. refl) rows.players)

write_street-ledger :
    (res : StreetAdvanceResult) (action : StreetAdvanceAction) (rows : HandRows)
    → ledger_pot (write_street res action rows).ledger ≡ ledger_pot rows.ledger
unfolding write_street
write_street-ledger res StreetAdvanceAction.settle_hand rows = refl
write_street-ledger res StreetAdvanceAction.showdown rows = refl
write_street-ledger res StreetAdvanceAction.next_street rows = refl

write_street-pot :
    (res : StreetAdvanceResult) (action : StreetAdvanceAction) (rows : HandRows)
    → (write_street res action rows).round.pot_amount ≡ rows.round.pot_amount
unfolding write_street
write_street-pot res StreetAdvanceAction.settle_hand rows = refl
write_street-pot res StreetAdvanceAction.showdown rows = refl
write_street-pot res StreetAdvanceAction.next_street rows = refl

write_street-IsConsistent :
    (res : StreetAdvanceResult) (rows : HandRows)
    → IsConsistent rows
    → (get_hand_state (write_street res res.action rows)).pot_total
      ≡ (write_street res res.action rows).round.pot_amount
write_street-IsConsistent res rows c =
    get_hand_state_pot (write_street res res.action rows)
    ∙ write_street-ledger res res.action rows
    ∙ sym (get_hand_state_pot rows)
    ∙ c.ledger_agrees
    ∙ sym (write_street-pot res res.action rows)

-- A street that is moved on keeps the rows of the hand consistent and every chip on the table, and
-- the result is the evaluation of the street that ended.
pub advance_street_lem :
    (rows : HandRows) {rows' : HandRows} {res : StreetAdvanceResult}
    → IsConsistent rows
    → advance_street rows ≡ ok (rows', res)
    → IsConsistent rows' × (chips_of rows' ≡ chips_of rows) × (res ≡ street_end rows)
unfolding advance_street get_hand_state
advance_street_lem rows {rows'} {res} c h =
    let (_, h1) = raise_if-eq-ok (not (round_is_active rows.round.status)) _ _ h in
    let (_, h2) = raise_if-eq-ok (is_showdown rows.round.street) _ _ h1 in
    let moved = write_street (street_end rows) (street_end rows).action rows in
    let e : rows' ≡ add_event GameEventType.street_advanced moved = cc in
    let same : res ≡ street_end rows = cc in
    let kept : IsConsistent (add_event GameEventType.street_advanced moved) = record {
      sound = write_street-IsSound (street_end rows) (street_end rows).action rows c.sound;
      ledger_agrees = write_street-IsConsistent (street_end rows) rows c;
    } in
    (
      subst IsConsistent (sym e) kept,
      ap chips_of e ∙ write_street-chips (street_end rows) (street_end rows).action rows,
      same,
    )
