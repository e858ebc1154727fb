-- ===== src/Ledger/HandHistory.antt =====
-- services/game-service/app/domain/ledger/hand_history.py: the timeline of a hand, by streets.
pub mod Laws
use poker_room_backend.Prelude.{
  ℕ, ℤ, pos, ◌+ℤ◌, ◌-ℤ◌, String, Bool, true, false, Option, none, some, List, [], ◌∷◌, ◌++◌, str_eq,
  if◌then◌else◌, or_else, length,
}
use poker_room_backend.Domain.Constants.{LedgerEntryType}
use poker_room_backend.Domain.Models.{Detail}
use poker_room_backend.Ledger.HandLedger.{LedgerRow, amount_of}

pub record ActionEntry : Type 0 where
  pub entry_id : String
  pub player_id : Option String
  pub action_type : LedgerEntryType
  pub amount : ℤ
  pub pot_running_total : ℤ

pub record StreetSummary : Type 0 where
  pub street : String
  pub actions : List ActionEntry
  pub pot_at_start : ℤ
  pub pot_at_end : ℤ

pub record PayoutEntry : Type 0 where
  pub entry_id : String
  pub player_id : String
  pub amount : ℤ

pub record CorrectionEntry : Type 0 where
  pub entry_id : String
  pub correction_type : LedgerEntryType
  pub player_id : Option String
  pub amount : Option ℤ
  pub original_entry_id : Option String
  pub detail : Option Detail

pub record HandTimeline : Type 0 where
  pub round_id : String
  pub streets : List StreetSummary
  pub payouts : List PayoutEntry
  pub corrections : List CorrectionEntry
  pub is_completed : Bool
  pub is_reopened : Bool
  pub total_entries : ℕ

-- The variables of the loop.
pub record Progress : Type 0 where
  pub timeline : HandTimeline
  pub current_street : StreetSummary
  pub pot : ℤ

abbrev pub new_street : String → ℤ → StreetSummary
new_street name pot = record { street = name; actions = []; pot_at_start = pot; pot_at_end = pos 0 }

abbrev pub street_name : LedgerRow → String
street_name e = elim e.detail [ none ↦ "UNKNOWN" | some d ↦ or_else d.street "UNKNOWN" ]

unfoldable pub deal_street : Progress → LedgerRow → Progress
deal_street p e = record p {
  timeline = record p.timeline {
    streets = p.timeline.streets ++ record p.current_street { pot_at_end = p.pot } ∷ [];
  };
  current_street = new_street (street_name e) p.pot;
}

unfoldable pub note_action : Progress → LedgerRow → Progress
note_action p e =
    let pot = p.pot +ℤ amount_of e in
    record p {
      pot = pot;
      current_street = record p.current_street {
        actions =
            p.current_street.actions
            ++ record {
              entry_id = e.entry_id;
              player_id = e.player_id;
              action_type = e.entry_type;
              amount = amount_of e;
              pot_running_total = pot;
            }
              ∷ [];
      };
    }

-- `if entry.player_id:`
unfoldable pub payouts_with : LedgerRow → Option String → List PayoutEntry → List PayoutEntry
payouts_with e none payouts = payouts
payouts_with e (some player_id) payouts =
    if str_eq player_id ""
    then payouts
    else payouts
      ++ record { entry_id = e.entry_id; player_id = player_id; amount = amount_of e } ∷ []

abbrev note_payout : Progress → LedgerRow → Progress
note_payout p e = record p {
  timeline = record p.timeline { payouts = payouts_with e e.player_id p.timeline.payouts };
}

unfoldable pub note_correction : Progress → LedgerRow → Progress
note_correction p e = record p {
  timeline = record p.timeline {
    corrections =
        p.timeline.corrections
        ++ record {
          entry_id = e.entry_id;
          correction_type = e.entry_type;
          player_id = e.player_id;
          amount = e.amount;
          original_entry_id = e.original_entry_id;
          detail = e.detail;
        }
          ∷ [];
  };
}

abbrev reopen : Progress → Progress
reopen p = record p { timeline = record p.timeline { is_reopened = true; is_completed = false } }

-- The body of the loop, by the type of the entry.
unfoldable pub note_typed : LedgerEntryType → Progress → LedgerRow → Progress
note_typed LedgerEntryType.street_dealt p e = deal_street p e
note_typed LedgerEntryType.blind_posted p e = note_action p e
note_typed LedgerEntryType.ante_posted p e = note_action p e
note_typed LedgerEntryType.bet_placed p e = note_action p e
note_typed LedgerEntryType.payout_awarded p e = note_payout p e
note_typed LedgerEntryType.round_completed p e = record p {
  timeline = record p.timeline { is_completed = true };
}
note_typed LedgerEntryType.hand_reopened p e = note_correction (reopen p) e
note_typed LedgerEntryType.action_reversed p e =
    note_correction (record p { pot = p.pot -ℤ amount_of e }) e
note_typed LedgerEntryType.stack_adjusted p e = note_correction p e
note_typed LedgerEntryType.payout_corrected p e = note_correction p e

unfoldable pub note_entry : Progress → LedgerRow → Progress
unfolding deal_street note_action payouts_with note_correction note_typed
note_entry p e = note_typed e.entry_type p e

abbrev pub note_entries : Progress → List LedgerRow → Progress
note_entries p [] = p
note_entries p (e ∷ es) = note_entries (note_entry p e) es

abbrev pub start : String → List LedgerRow → Progress
start round_id entries = record {
  timeline = record {
    round_id = round_id;
    streets = [];
    payouts = [];
    corrections = [];
    is_completed = false;
    is_reopened = false;
    total_entries = length entries;
  };
  current_street = new_street "PRE_FLOP" (pos 0);
  pot = pos 0;
}

-- The last street is closed behind the loop.
abbrev pub finish : Progress → HandTimeline
finish p = record p.timeline {
  streets = p.timeline.streets ++ record p.current_street { pot_at_end = p.pot } ∷ [];
}

unfoldable pub build_hand_timeline : String → List LedgerRow → HandTimeline
build_hand_timeline round_id entries = finish (note_entries (start round_id entries) entries)
