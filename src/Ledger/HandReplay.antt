-- ===== src/Ledger/HandReplay.antt =====
-- services/game-service/app/domain/ledger/hand_replay.py: the states of a hand entry by entry, and
-- the check of the stored hand against its ledger.
pub mod Laws
use poker_room_backend.Prelude.{
  ℕ, suc, ℤ, String, Bool, true, not, Option, none, some, List, [], ◌∷◌, ◌++◌, str_eq, eqb_ℤ,
  if◌then◌else◌, length,
}
use poker_room_backend.Domain.Constants.{LedgerEntryType}
use poker_room_backend.Ledger.HandLedger.{
  LedgerRow, PlayerSnapshot, Snapshots, HandState, empty_state, apply_entry, rebuild_hand_state,
  get,
}

pub record HandStep : Type 0 where
  pub step_number : ℕ
  pub entry_id : String
  pub entry_type : LedgerEntryType
  pub player_id : Option String
  pub amount : Option ℤ
  pub state_after : HandState

pub record ReplayResult : Type 0 where
  pub steps : List HandStep
  pub final_state : HandState
  pub entry_count : ℕ
  pub is_consistent : Bool

abbrev pub step_of : ℕ → LedgerRow → HandState → HandStep
step_of i e after = record {
  step_number = i;
  entry_id = e.entry_id;
  entry_type = e.entry_type;
  player_id = e.player_id;
  amount = e.amount;
  state_after = after;
}

-- The loop: the steps so far, and the state.
unfoldable pub replay_loop :
    ℕ → List HandStep → HandState → List LedgerRow → List HandStep × HandState
replay_loop i steps s [] = (steps, s)
replay_loop i steps s (e ∷ es) =
    let after = apply_entry s e in replay_loop (suc i) (steps ++ step_of i e after ∷ []) after es

unfoldable pub replay_hand : List LedgerRow → ReplayResult
replay_hand entries =
    let (steps, state) = replay_loop 1 [] empty_state entries in
    record {
      steps = steps;
      final_state = elim entries [ [] ↦ empty_state | e ∷ es ↦ state ];
      entry_count = length entries;
      is_consistent = true;
    }

pub data Discrepancy : Type 0 where
  pot_mismatch : ℤ → ℤ → Discrepancy
  only_live only_replayed : String → Discrepancy
  committed_mismatch : String → ℤ → ℤ → Discrepancy

unfoldable pub check_player : String → ℤ → Option PlayerSnapshot → List Discrepancy
check_player player_id committed none = only_live player_id ∷ []
check_player player_id committed (some snap) =
    if eqb_ℤ snap.total_committed committed
    then []
    else committed_mismatch player_id snap.total_committed committed ∷ []

unfoldable pub check_live : Snapshots → List (String × ℤ) → List Discrepancy
check_live players [] = []
check_live players ((player_id, committed) ∷ live) =
    check_player player_id committed (get player_id players) ++ check_live players live

unfoldable pub check_replayed : List (String × ℤ) → Snapshots → List Discrepancy
check_replayed live [] = []
check_replayed live ((player_id, snap) ∷ players) =
    elim (get player_id live) [ none ↦ only_replayed player_id ∷ [] | some _ ↦ [] ]
    ++ check_replayed live players

unfoldable pub verify_consistency : List LedgerRow → ℤ → List (String × ℤ) → List Discrepancy
verify_consistency entries live_pot_total live_player_committed =
    let replayed = rebuild_hand_state entries in
    (if eqb_ℤ replayed.pot_total live_pot_total
      then []
      else pot_mismatch replayed.pot_total live_pot_total ∷ [])
    ++ (check_live replayed.players live_player_committed
        ++ check_replayed live_player_committed replayed.players)
