-- ===== src/Ledger/HandLedger.antt =====
-- services/game-service/app/domain/ledger/hand_ledger.py: the state of a hand, rebuilt from its
-- ledger entries.
pub mod Laws
use poker_room_backend.Prelude.{
  ℕ, suc, ℤ, pos, ◌+ℤ◌, ◌-ℤ◌, String, Bool, true, false, not, Option, none, some, List, [], ◌∷◌,
  ◌++◌, str_eq, if◌then◌else◌, or_else,
}
use poker_room_backend.Domain.Constants.{LedgerEntryType}
use poker_room_backend.Domain.Models.{Detail}
use poker_room_backend.Engine.SidePots.{has_id}

pub record LedgerRow : Type 0 where
  pub entry_id : String
  pub entry_type : LedgerEntryType
  pub player_id : Option String
  pub amount : Option ℤ
  pub detail : Option Detail
  pub original_entry_id : Option String

pub record PlayerSnapshot : Type 0 where
  pub player_id : String
  pub stack_adjustment : ℤ
  pub total_committed : ℤ
  pub total_won : ℤ
  pub is_action_reversed : Bool

pub record PayoutCorrection : Type 0 where
  pub entry_id : String
  pub old_player_id : Option String
  pub old_amount : ℤ
  pub new_player_id : Option String
  pub new_amount : ℤ

-- A dict from player ids, in the order of insertion.
abbrev pub Snapshots : Type 0
Snapshots = List (String × PlayerSnapshot)

-- `d.get(k)`, of a dict in the order of insertion
unfoldable pub get {ℓ} : {V : Type ℓ} → String → List (String × V) → Option V
get k [] = none
get k ((j, v) ∷ d) = if str_eq j k then some v else get k d

pub record HandState : Type 0 where
  pub players : Snapshots
  pub pot_total : ℤ
  pub is_completed : Bool
  pub is_reopened : Bool
  pub reversed_entry_ids : List String
  pub payout_corrections : List PayoutCorrection
  pub entry_count : ℕ

abbrev pub empty_state : HandState
empty_state = record {
  players = [];
  pot_total = pos 0;
  is_completed = false;
  is_reopened = false;
  reversed_entry_ids = [];
  payout_corrections = [];
  entry_count = 0;
}

abbrev pub new_snapshot : String → PlayerSnapshot
new_snapshot player_id = record {
  player_id = player_id;
  stack_adjustment = pos 0;
  total_committed = pos 0;
  total_won = pos 0;
  is_action_reversed = false;
}

-- `_ensure_player`, and a change of the snapshot that it returns.
unfoldable pub change_player : String → (PlayerSnapshot → PlayerSnapshot) → Snapshots → Snapshots
change_player player_id f [] = (player_id, f (new_snapshot player_id)) ∷ []
change_player player_id f ((k, ps) ∷ rest) =
    if str_eq k player_id then (k, f ps) ∷ rest else (k, ps) ∷ change_player player_id f rest

-- `if player_id:`, then the change: `None` and the empty string name nobody.
unfoldable pub change_named :
    Option String → (PlayerSnapshot → PlayerSnapshot) → Snapshots → Snapshots
change_named none f players = players
change_named (some player_id) f players =
    if str_eq player_id "" then players else change_player player_id f players

-- `amount or 0`
abbrev pub amount_of : LedgerRow → ℤ
amount_of e = or_else e.amount (pos 0)

abbrev pub commit_more : ℤ → PlayerSnapshot → PlayerSnapshot
commit_more amt ps = record ps {
  total_committed = ps.total_committed +ℤ amt;
  is_action_reversed = false;
}

abbrev pub commit_less : ℤ → PlayerSnapshot → PlayerSnapshot
commit_less amt ps = record ps {
  total_committed = ps.total_committed -ℤ amt;
  is_action_reversed = true;
}

abbrev pub win_more : ℤ → PlayerSnapshot → PlayerSnapshot
win_more amt ps = record ps { total_won = ps.total_won +ℤ amt }

abbrev pub win_less : ℤ → PlayerSnapshot → PlayerSnapshot
win_less amt ps = record ps { total_won = ps.total_won -ℤ amt }

abbrev pub adjust_more : ℤ → PlayerSnapshot → PlayerSnapshot
adjust_more amt ps = record ps { stack_adjustment = ps.stack_adjustment +ℤ amt }

-- `if orig_id: reversed_entry_ids.add(orig_id)`
unfoldable pub add_reversed : Option String → List String → List String
add_reversed none ids = ids
add_reversed (some entry_id) ids =
    if str_eq entry_id "" then ids else if has_id entry_id ids then ids else ids ++ entry_id ∷ []

abbrev pub old_player_of : LedgerRow → Option String
old_player_of e = elim e.detail [ none ↦ none | some d ↦ d.old_player_id ]

-- `detail.get("old_amount", 0)`
abbrev pub old_amount_of : LedgerRow → ℤ
old_amount_of e = elim e.detail [ none ↦ pos 0 | some d ↦ or_else d.old_amount (pos 0) ]

unfoldable pub post_entry : HandState → LedgerRow → HandState
post_entry s e = record s {
  players = change_named e.player_id (commit_more (amount_of e)) s.players;
  pot_total = s.pot_total +ℤ amount_of e;
}

unfoldable pub reverse_entry : HandState → LedgerRow → HandState
reverse_entry s e = record s {
  players = change_named e.player_id (commit_less (amount_of e)) s.players;
  pot_total = s.pot_total -ℤ amount_of e;
  reversed_entry_ids = add_reversed e.original_entry_id s.reversed_entry_ids;
}

unfoldable pub correct_entry : HandState → LedgerRow → HandState
correct_entry s e = record s {
  players =
      change_named e.player_id (win_more (amount_of e))
        (change_named (old_player_of e) (win_less (old_amount_of e)) s.players);
  payout_corrections =
      s.payout_corrections
      ++ record {
        entry_id = e.entry_id;
        old_player_id = old_player_of e;
        old_amount = old_amount_of e;
        new_player_id = e.player_id;
        new_amount = amount_of e;
      }
        ∷ [];
}

-- The branches on the type of the entry.
unfoldable pub apply_typed : LedgerEntryType → HandState → LedgerRow → HandState
apply_typed LedgerEntryType.blind_posted s e = post_entry s e
apply_typed LedgerEntryType.ante_posted s e = post_entry s e
apply_typed LedgerEntryType.bet_placed s e = post_entry s e
apply_typed LedgerEntryType.street_dealt s e = s
apply_typed LedgerEntryType.payout_awarded s e = record s {
  players = change_named e.player_id (win_more (amount_of e)) s.players;
}
apply_typed LedgerEntryType.round_completed s e = record s { is_completed = true }
apply_typed LedgerEntryType.action_reversed s e = reverse_entry s e
apply_typed LedgerEntryType.stack_adjusted s e = record s {
  players = change_named e.player_id (adjust_more (amount_of e)) s.players;
}
apply_typed LedgerEntryType.hand_reopened s e = record s {
  is_completed = false;
  is_reopened = true;
}
apply_typed LedgerEntryType.payout_corrected s e = correct_entry s e

unfoldable pub apply_entry : HandState → LedgerRow → HandState
unfolding post_entry reverse_entry correct_entry apply_typed
apply_entry s e = apply_typed e.entry_type (record s { entry_count = suc s.entry_count }) e

abbrev pub apply_entries : HandState → List LedgerRow → HandState
apply_entries s [] = s
apply_entries s (e ∷ es) = apply_entries (apply_entry s e) es

unfoldable pub rebuild_hand_state : List LedgerRow → HandState
rebuild_hand_state entries = apply_entries empty_state entries
