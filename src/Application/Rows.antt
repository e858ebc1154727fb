-- ===== src/Application/Rows.antt =====
-- The rows that belong to one round, and the writes that the commands share
-- (services/game-service/app/application/action_helpers.py). An outbox event keeps its type and its
-- subject, a round or a game.
use poker_room_backend.Prelude.{
  ℤ, String, Option, none, some, List, [], ◌∷◌, ◌++◌, map, ◌≡◌, str_eq, find_first, change_first,
}
use poker_room_backend.Domain.Constants.{GameEventType, LedgerEntryType, BetAction}
use poker_room_backend.Domain.Models.{Round, RoundPlayer, Bet, Detail, HandLedgerEntry}
use poker_room_backend.Ledger.HandLedger.{LedgerRow, HandState, rebuild_hand_state}

pub record OutboxEvent : Type 0 where
  pub event_type : GameEventType
  pub subject : String

pub record HandRows : Type 0 where
  pub round : Round
  pub players : List RoundPlayer
  pub bets : List Bet
  pub ledger : List HandLedgerEntry
  pub events : List OutboxEvent

-- `append_ledger_entry`
abbrev pub append_ledger_entry : HandLedgerEntry → HandRows → HandRows
append_ledger_entry e rows = record rows { ledger = rows.ledger ++ e ∷ [] }

-- `add_outbox_event(db, OutboxEvent, build_event(...))`
abbrev pub add_event : GameEventType → HandRows → HandRows
add_event t rows = record rows {
  events = rows.events ++ record { event_type = t; subject = rows.round.round_id } ∷ [];
}

abbrev pub ledger_row : HandLedgerEntry → LedgerRow
ledger_row e = record {
  entry_id = e.entry_id;
  entry_type = e.entry_type;
  player_id = e.player_id;
  amount = e.amount;
  detail = e.detail;
  original_entry_id = e.original_entry_id;
}

-- `CorrectionCommandService.get_hand_state`
unfoldable pub get_hand_state : HandRows → HandState
get_hand_state rows = rebuild_hand_state (map ledger_row rows.ledger)

-- The two values that `record_bet_action` draws.
pub record BetIds : Type 0 where
  pub bet_id : String
  pub entry_id : String

abbrev pub bet_of : BetIds → String → String → BetAction → ℤ → Option String → Bet
bet_of ids round_id player_id action amount key = record {
  bet_id = ids.bet_id;
  round_id = round_id;
  player_id = player_id;
  action = action;
  amount = amount;
  idempotency_key = key;
}

abbrev pub no_detail : Detail
no_detail = record { old_player_id = none; old_amount = none; street = none }

abbrev pub bet_entry : BetIds → String → String → ℤ → HandLedgerEntry
bet_entry ids round_id player_id amount = record {
  entry_id = ids.entry_id;
  round_id = round_id;
  entry_type = LedgerEntryType.bet_placed;
  player_id = some player_id;
  amount = some amount;
  detail = some no_detail;
  original_entry_id = none;
  dealer_id = none;
}

-- `record_bet_action`
unfoldable pub record_bet_action :
    BetIds → String → BetAction → ℤ → Option String → HandRows → HandRows
record_bet_action ids player_id action amount key rows = add_event GameEventType.bet_placed (
    append_ledger_entry (bet_entry ids rows.round.round_id player_id amount) (record rows {
      bets = rows.bets ++ bet_of ids rows.round.round_id player_id action amount key ∷ [];
    }))

-- The writes to `player_map.get(player_id)`, and to the first player with an id.
abbrev pub change_row : String → (RoundPlayer → RoundPlayer) → List RoundPlayer → List RoundPlayer
change_row player_id change rps = change_first (λ rp. str_eq rp.player_id player_id) change rps

-- The first player with an id.
abbrev pub Seated : String → List RoundPlayer → RoundPlayer → Type 0
Seated player_id rps rp = find_first (λ q. str_eq q.player_id player_id) rps ≡ some rp
