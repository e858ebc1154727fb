-- ===== src/Application/Corrections.antt =====
-- `CorrectionCommandService`
-- (services/game-service/app/application/commands/correction_command_service.py). Of the JSON that a
-- reason makes, the ledger reads no key.
pub mod Laws
use poker_room_backend.Prelude.{
  ℤ, pos, ◌+ℤ◌, ◌-ℤ◌, String, Bool, true, false, not, ◌&&◌, ◌||◌, Option, none, some, List, [], ◌∷◌,
  str_eq, ltb_ℤ, max_ℤ, if◌then◌else◌, or_else, find_first,
}
use poker_room_backend.Domain.Constants.{LedgerEntryType, GameEventType, RoundStatus, is_correction}
use poker_room_backend.Domain.Exceptions.{DomainError, Result, ok, err, ◌>>=◌, ◌>>◌, raise_if}
use poker_room_backend.Domain.Models.{Round, RoundPlayer, Detail, HandLedgerEntry}
use poker_room_backend.Application.Rows.{
  HandRows, append_ledger_entry, add_event, no_detail, change_row,
}

-- The identifier that a correction draws, and what its caller says of it.
pub record Correction : Type 0 where
  pub entry_id : String
  pub dealer_id : Option String
  pub reason : Option String

-- `{"reason": reason} if reason else None`
abbrev pub reason_detail : Option String → Option Detail
reason_detail none = none
reason_detail (some reason) = if str_eq reason "" then none else some no_detail

abbrev pub correction_entry :
    Correction
    → String
    → LedgerEntryType
    → Option String
    → Option ℤ
    → Option Detail
    → Option String
    → HandLedgerEntry
correction_entry c round_id entry_type player_id amount detail original_entry_id = record {
  entry_id = c.entry_id;
  round_id = round_id;
  entry_type = entry_type;
  player_id = player_id;
  amount = amount;
  detail = detail;
  original_entry_id = original_entry_id;
  dealer_id = c.dealer_id;
}

abbrev pub add_chips : ℤ → RoundPlayer → RoundPlayer
add_chips amount rp = record rp { stack_remaining = rp.stack_remaining +ℤ amount }

-- The writes to the player of a reversed entry.
abbrev pub give_back : ℤ → RoundPlayer → RoundPlayer
give_back amount rp = record rp {
  stack_remaining = rp.stack_remaining +ℤ amount;
  committed_this_street = max_ℤ (pos 0) (rp.committed_this_street -ℤ amount);
  committed_this_hand = max_ℤ (pos 0) (rp.committed_this_hand -ℤ amount);
}

-- `if original.player_id and reversed_amount > 0`
abbrev pub reversal : String → ℤ → HandRows → HandRows
reversal player_id amount rows =
    if not (str_eq player_id "") && ltb_ℤ (pos 0) amount
    then record rows {
      round = record rows.round { pot_amount = max_ℤ (pos 0) (rows.round.pot_amount -ℤ amount) };
      players = change_row player_id (give_back amount) rows.players;
    }
    else rows

abbrev pub reverse_chips : HandLedgerEntry → HandRows → HandRows
reverse_chips original rows = elim original.player_id [
  | none ↦ rows
  | some player_id ↦ reversal player_id (or_else original.amount (pos 0)) rows
]

abbrev pub entry_or_raise : Option HandLedgerEntry → Result HandLedgerEntry
entry_or_raise none = err DomainError.ledger_entry_not_found
entry_or_raise (some e) = ok e

abbrev pub is_reversal : LedgerEntryType → Bool
is_reversal LedgerEntryType.action_reversed = true
is_reversal _ = false

abbrev pub names_entry : String → Option String → Bool
names_entry entry_id none = false
names_entry entry_id (some original) = str_eq original entry_id

-- `original_entry_id in reversed_ids`
unfoldable pub is_reversed : String → List HandLedgerEntry → Bool
is_reversed entry_id [] = false
is_reversed entry_id (e ∷ es) =
    (is_reversal e.entry_type && names_entry entry_id e.original_entry_id)
    || is_reversed entry_id es

unfoldable pub reverse_action : Correction → String → HandRows → Result HandRows
reverse_action c original_entry_id rows = do
  original ← entry_or_raise (find_first (λ e. str_eq e.entry_id original_entry_id) rows.ledger)
  raise_if (not (str_eq original.round_id rows.round.round_id)) DomainError.ledger_entry_not_found
  raise_if (is_correction original.entry_type) DomainError.cannot_reverse_correction
  raise_if (is_reversed original_entry_id rows.ledger) DomainError.entry_already_reversed
  ok (
      add_event GameEventType.correction_applied (
        reverse_chips original (
          append_ledger_entry
            (correction_entry c rows.round.round_id LedgerEntryType.action_reversed
              original.player_id original.amount (reason_detail c.reason) (some original_entry_id))
            rows)))

unfoldable pub adjust_stack : Correction → String → ℤ → HandRows → HandRows
adjust_stack c player_id amount rows =
    let entry =
      correction_entry c rows.round.round_id LedgerEntryType.stack_adjusted (some player_id)
        (some amount) (reason_detail c.reason) none in
    add_event GameEventType.correction_applied (
      append_ledger_entry entry
        (record rows { players = change_row player_id (add_chips amount) rows.players }))

abbrev pub is_completed : RoundStatus → Bool
is_completed RoundStatus.completed = true
is_completed _ = false

unfoldable pub reopen_hand : Correction → HandRows → Result HandRows
reopen_hand c rows =
    raise_if (not (is_completed rows.round.status)) DomainError.round_not_completed
    >> ok (
        add_event GameEventType.correction_applied (
          append_ledger_entry
            (correction_entry c rows.round.round_id LedgerEntryType.hand_reopened none none
              (reason_detail c.reason) none)
            (record rows {
              round = record rows.round {
                status = RoundStatus.active;
                is_action_closed = false;
                completed_at = none;
              };
            })))

-- The players and the amounts of a corrected payout.
pub record PayoutCorrection : Type 0 where
  pub old_player_id : String
  pub old_amount : ℤ
  pub new_player_id : String
  pub new_amount : ℤ

abbrev pub payout_detail : PayoutCorrection → Detail
payout_detail p = record {
  old_player_id = some p.old_player_id;
  old_amount = some p.old_amount;
  street = none;
}

unfoldable pub correct_payout : Correction → PayoutCorrection → HandRows → HandRows
correct_payout c p rows =
    let entry =
      correction_entry c rows.round.round_id LedgerEntryType.payout_corrected (some p.new_player_id)
        (some p.new_amount) (some (payout_detail p)) none in
    let taken = change_row p.old_player_id (add_chips (pos 0 -ℤ p.old_amount)) rows.players in
    add_event GameEventType.correction_applied (
      append_ledger_entry entry
        (record rows { players = change_row p.new_player_id (add_chips p.new_amount) taken }))
