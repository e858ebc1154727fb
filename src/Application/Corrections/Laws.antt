-- ===== src/Application/Corrections/Laws.antt =====
-- What reversing an entry of the ledger keeps.
use poker_room_backend.Prelude.{
  ℤ, pos, ◌+ℤ◌, ◌-ℤ◌, ◌≤ℤ◌, ◌<ℤ◌, ◌≡◌, ◌≢◌, refl, sym, ap, ap₂, subst, ◌∙◌, String, Bool, true,
  false, not, ◌&&◌, Option, none, some, List, [], ◌∷◌, ◌++◌, str_eq, eq_iff, ltb_ℤ, max_ℤ, arith,
  int_laws, lt→ltb_ℤ, inl, inr, Bool-cases, find_first, sum_by-change_first, found-le-sum, All,
  All-map, or_else,
}
use poker_room_backend.Domain.Constants.{LedgerEntryType, GameEventType, is_correction}
use poker_room_backend.Domain.Exceptions.{DomainError, ok, err, >>=-eq-ok, raise_if-eq-ok}
use poker_room_backend.Domain.Models.{RoundPlayer, HandLedgerEntry}
use poker_room_backend.Engine.ActionPipeline.Conservation.{committed}
use poker_room_backend.Engine.ActionPipeline.Invariant.{IsSoundPlayer}
use poker_room_backend.Ledger.HandLedger.Laws.{pot_effect}
use poker_room_backend.Application.Rows.{
  HandRows, add_event, append_ledger_entry, get_hand_state, change_row, Seated, ledger_row,
}
use poker_room_backend.Application.Consistency.{
  IsConsistent, chips_of, ledger_pot, get_hand_state_pot, ledger_pot-append,
}
use poker_room_backend.Application.Corrections.{
  Correction, correction_entry, reason_detail, give_back, reversal, reverse_chips, entry_or_raise,
  is_reversal, names_entry, is_reversed, reverse_action,
}

-- The rows that a reversal leaves.
abbrev pub reversed_rows : Correction → String → HandLedgerEntry → HandRows → HandRows
reversed_rows c entry_id original rows = add_event GameEventType.correction_applied (
    reverse_chips original (
      append_ledger_entry
        (correction_entry c rows.round.round_id LedgerEntryType.action_reversed original.player_id
          original.amount (reason_detail c.reason) (some entry_id))
        rows))

-- A reversal that was accepted, by its guards.
pub record Reversed (c : Correction) (entry_id : String) (rows rows' : HandRows) : Type 0 where
  pub original : HandLedgerEntry
  pub found : find_first (λ e. str_eq e.entry_id entry_id) rows.ledger ≡ some original
  pub in_round : not (str_eq original.round_id rows.round.round_id) ≡ false
  pub no_correction : is_correction original.entry_type ≡ false
  pub not_yet : is_reversed entry_id rows.ledger ≡ false
  pub new_rows : rows' ≡ reversed_rows c entry_id original rows

reverse_action-Reversed :
    (c : Correction) (entry_id : String) (rows : HandRows) {rows' : HandRows}
    → reverse_action c entry_id rows ≡ ok rows'
    → Reversed c entry_id rows rows'
unfolding reverse_action
reverse_action-Reversed c entry_id rows h =
    let (original, found, h1) =
      >>=-eq-ok (entry_or_raise (find_first (λ e. str_eq e.entry_id entry_id) rows.ledger)) _ h in
    let (in_round, h2) =
      raise_if-eq-ok (not (str_eq original.round_id rows.round.round_id)) _ _ h1 in
    let (no_correction, h3) = raise_if-eq-ok (is_correction original.entry_type) _ _ h2 in
    let (not_yet, h4) = raise_if-eq-ok (is_reversed entry_id rows.ledger) _ _ h3 in
    record {
      original = original;
      found = raised (find_first (λ e. str_eq e.entry_id entry_id) rows.ledger) found;
      in_round = in_round;
      no_correction = no_correction;
      not_yet = not_yet;
      new_rows = cc;
    }
  where
    raised :
        (o : Option HandLedgerEntry) {e : HandLedgerEntry} → entry_or_raise o ≡ ok e → o ≡ some e
    raised none e = ground arith
    raised (some x) e = cc

find_first-append :
    (p : HandLedgerEntry → Bool) (es fs : List HandLedgerEntry) {e : HandLedgerEntry}
    → find_first p es ≡ some e
    → find_first p (es ++ fs) ≡ some e
find_first-append p [] fs h = ground arith
find_first-append p (x ∷ es) fs h = elim (Bool-cases (p x)) [
  | inl it ↦ rw it (rw it at h)
  | inr other ↦ rw other (find_first-append p es fs (rw other at h))
]

is_reversed-append :
    (entry_id : String) (es : List HandLedgerEntry) (e : HandLedgerEntry)
    → (is_reversal e.entry_type && names_entry entry_id e.original_entry_id) ≡ true
    → is_reversed entry_id (es ++ e ∷ []) ≡ true
unfolding is_reversed
is_reversed-append entry_id [] e h = rw h refl
is_reversed-append entry_id (x ∷ es) e h = rw (is_reversed-append entry_id es e h) (ground arith)

reverse_chips-kept :
    (original : HandLedgerEntry) (rows : HandRows)
    → ((reverse_chips original rows).ledger ≡ rows.ledger)
      × ((reverse_chips original rows).round.round_id ≡ rows.round.round_id)
reverse_chips-kept original rows = by_player original.player_id
  where
    by_player :
        (o : Option String)
        → let left = elim o as (λ _. HandRows) [
          | none ↦ rows
          | some player_id ↦ reversal player_id (or_else original.amount (pos 0)) rows
        ] in
          (left.ledger ≡ rows.ledger) × (left.round.round_id ≡ rows.round.round_id)
    by_player none = (refl, refl)
    by_player (some player_id) =
        elim (Bool-cases
          (not (str_eq player_id "") && ltb_ℤ (pos 0) (or_else original.amount (pos 0)))) [
            | inl moved ↦ rw moved (refl, refl)
            | inr kept ↦ rw kept (refl, refl)
          ]

refused :
    (c : Correction) (entry_id : String) (rows : HandRows) (original : HandLedgerEntry)
    → find_first (λ e. str_eq e.entry_id entry_id) rows.ledger ≡ some original
    → not (str_eq original.round_id rows.round.round_id) ≡ false
    → is_correction original.entry_type ≡ false
    → is_reversed entry_id rows.ledger ≡ true
    → reverse_action c entry_id rows ≡ err DomainError.entry_already_reversed
unfolding reverse_action
refused c entry_id rows original found in_round no_correction again =
    rw (found, in_round, no_correction, again) refl

-- An entry is reversed once: the reversal of an entry that was reversed is an error.
pub reverse_action_once :
    (c c' : Correction) (entry_id : String) (rows : HandRows) {rows' : HandRows}
    → reverse_action c entry_id rows ≡ ok rows'
    → reverse_action c' entry_id rows' ≡ err DomainError.entry_already_reversed
reverse_action_once c c' entry_id rows {rows'} h =
    let r = reverse_action-Reversed c entry_id rows h in
    let entry =
      correction_entry c rows.round.round_id LedgerEntryType.action_reversed r.original.player_id
        r.original.amount (reason_detail c.reason) (some entry_id) in
    let kept = reverse_chips-kept r.original (append_ledger_entry entry rows) in
    let ledger : rows'.ledger ≡ rows.ledger ++ entry ∷ [] =
      ap (λ x. x.ledger) r.new_rows ∙ kept.0 in
    let round_id : rows'.round.round_id ≡ rows.round.round_id =
      ap (λ x. x.round.round_id) r.new_rows ∙ kept.1 in
    refused c' entry_id rows' r.original
      (ap (find_first (λ e. str_eq e.entry_id entry_id)) ledger
        ∙ find_first-append _ rows.ledger (entry ∷ []) r.found)
      (ap (λ x. not (str_eq r.original.round_id x)) round_id ∙ r.in_round) r.no_correction
      (ap (is_reversed entry_id) ledger
        ∙ is_reversed-append entry_id rows.ledger entry ((eq_iff entry_id entry_id).1 refl))

abbrev pub given_back : String → ℤ → HandRows → HandRows
given_back player_id amount rows = record rows {
  round = record rows.round { pot_amount = max_ℤ (pos 0) (rows.round.pot_amount -ℤ amount) };
  players = change_row player_id (give_back amount) rows.players;
}

reverse_chips-given_back :
    (original : HandLedgerEntry) (rows : HandRows) (player_id : String) (amount : ℤ)
    → original.player_id ≡ some player_id
    → original.amount ≡ some amount
    → player_id ≢ ""
    → pos 0 <ℤ amount
    → reverse_chips original rows ≡ given_back player_id amount rows
reverse_chips-given_back original rows player_id amount named e nonempty positive =
    ap₂
      (λ (o : Option String) (x : Option ℤ). elim o as (λ _. HandRows) [
        | none ↦ rows
        | some p ↦ reversal p (or_else x (pos 0)) rows
      ])
      named e
    ∙ moves
  where
    moves : reversal player_id amount rows ≡ given_back player_id amount rows
    moves = elim (Bool-cases (str_eq player_id "")) [
      | inl empty ↦ absurd (nonempty ((eq_iff player_id "").0 empty))
      | inr other ↦ rw (other, lt→ltb_ℤ (pos 0) amount positive) refl
    ]

hand_nonneg :
    (h : ℤ) (rps : List RoundPlayer)
    → All (IsSoundPlayer h) rps
    → All (λ q. pos 0 ≤ℤ q.committed_this_hand) rps
hand_nonneg h rps s = All-map (λ q sq. ground arith) rps s

-- On consistent rows, the reversal of an entry that put chips of a seated player in the pot, no more
-- than the player has committed, gives them back: the chips on the table stay, and the pot stays what
-- the players have committed and what the ledger replays to.
pub reverse_action_lem :
    (c : Correction) (entry_id : String) (rows : HandRows) (original : HandLedgerEntry)
    (player_id : String) (amount : ℤ) (rp : RoundPlayer) {rows' : HandRows}
    → IsConsistent rows
    → find_first (λ e. str_eq e.entry_id entry_id) rows.ledger ≡ some original
    → original.player_id ≡ some player_id
    → original.amount ≡ some amount
    → player_id ≢ ""
    → pos 0 <ℤ amount
    → Seated player_id rows.players rp
    → amount ≤ℤ rp.committed_this_hand
    → reverse_action c entry_id rows ≡ ok rows'
    → (chips_of rows' ≡ chips_of rows)
      × (rows'.round.pot_amount ≡ committed rows'.players)
      × ((get_hand_state rows').pot_total ≡ rows'.round.pot_amount)
reverse_action_lem c entry_id rows original player_id amount rp {rows'} con found named e nonempty
      positive seated fits h =
    let r = reverse_action-Reversed c entry_id rows h in
    let same : r.original ≡ original = entry_inj (sym r.found ∙ found) in
    let entry =
      correction_entry c rows.round.round_id LedgerEntryType.action_reversed original.player_id
        original.amount (reason_detail c.reason) (some entry_id) in
    let now : rows'
        ≡ add_event GameEventType.correction_applied
            (given_back player_id amount (append_ledger_entry entry rows)) =
      r.new_rows
      ∙ ap (λ o. reversed_rows c entry_id o rows) same
      ∙ ap (add_event GameEventType.correction_applied) (
          reverse_chips-given_back original (append_ledger_entry entry rows) player_id amount named
            e nonempty positive) in
    let nonneg = hand_nonneg rows.round.current_highest_bet rows.players con.sound.players in
    let le =
      found-le-sum (λ q. q.committed_this_hand) (λ q. str_eq q.player_id player_id) rows.players
        nonneg seated in
    let pot_left : max_ℤ (pos 0) (rows.round.pot_amount -ℤ amount)
        ≡ rows.round.pot_amount -ℤ amount =
      left_over _ amount (
        subst (λ x. amount ≤ℤ x) (sym con.sound.pot-eq-committed)
          (le_trans amount rp.committed_this_hand (committed rows.players) fits le)) in
    let stacks =
      sum_by-change_first (λ q. q.stack_remaining) amount (λ q. str_eq q.player_id player_id)
        (give_back amount) rows.players refl seated in
    let hands =
      sum_by-change_first (λ q. q.committed_this_hand) (pos 0 -ℤ amount)
        (λ q. str_eq q.player_id player_id) (give_back amount) rows.players
        (left_over _ amount fits ∙ minus rp.committed_this_hand amount) seated in
    let pot_agrees : rows'.round.pot_amount ≡ committed rows'.players =
      ap (λ x. x.round.pot_amount) now
      ∙ pot_left
      ∙ ap (λ x. x -ℤ amount) con.sound.pot-eq-committed
      ∙ minus (committed rows.players) amount
      ∙ sym hands
      ∙ ap (λ x. committed x.players) (sym now) in
    let ledger =
      get_hand_state_pot rows'
      ∙ ap (λ x. ledger_pot x.ledger) now
      ∙ ledger_pot-append rows.ledger entry
      ∙ ap (λ x. x +ℤ pot_effect (ledger_row entry))
          (sym (get_hand_state_pot rows) ∙ con.ledger_agrees)
      ∙ ap (λ x. rows.round.pot_amount +ℤ (pos 0 -ℤ or_else x (pos 0))) e
      ∙ sym (minus rows.round.pot_amount amount)
      ∙ sym pot_left
      ∙ ap (λ x. x.round.pot_amount) (sym now) in
    (
      ap chips_of now ∙ ap₂ ◌+ℤ◌ stacks pot_left ∙ moved_over _ amount rows.round.pot_amount,
      pot_agrees,
      ledger,
    )
  where
    entry_inj : {x y : HandLedgerEntry} → some x ≡ some y → x ≡ y
    entry_inj e = cc

    left_over : (a b : ℤ) → b ≤ℤ a → max_ℤ (pos 0) (a -ℤ b) ≡ a -ℤ b
    left_over a b h = grind int_laws

    le_trans : (a b c : ℤ) → a ≤ℤ b → b ≤ℤ c → a ≤ℤ c
    le_trans a b c h k = omega arith

    minus : (a b : ℤ) → a -ℤ b ≡ a +ℤ (pos 0 -ℤ b)
    minus a b = omega int_laws

    moved_over : (a b c : ℤ) → (a +ℤ b) +ℤ (c -ℤ b) ≡ a +ℤ c
    moved_over a b c = omega int_laws
