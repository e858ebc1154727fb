-- ===== src/Domain/Models.antt =====
-- The rows of services/game-service/app/domain/models.py that the services change. Surrogate keys
-- and `created_at` are left out; a time is a number of microseconds. Integer columns are Python's
-- integers: that they stay at 0 or above, as the CHECK constraints want, is proved, not assumed.
use poker_room_backend.Prelude.{ℕ, ℤ, String, Bool, Option}
use poker_room_backend.Domain.Constants.{
  GameStatus, RoundStatus, Street, BetAction, LedgerEntryType,
}

pub record Game : Type 0 where
  pub game_id : String
  pub room_id : String
  pub status : GameStatus
  pub current_blind_level : ℤ
  pub level_started_at : Option ℤ
  pub current_dealer_seat : ℤ
  pub current_small_blind_seat : ℤ
  pub current_big_blind_seat : ℤ
  pub hands_played : ℤ
  pub hands_at_current_level : ℤ

pub record Round : Type 0 where
  pub round_id : String
  pub game_id : String
  pub round_number : ℤ
  pub dealer_seat : ℤ
  pub small_blind_seat : ℤ
  pub big_blind_seat : ℤ
  pub small_blind_amount : ℤ
  pub big_blind_amount : ℤ
  pub ante_amount : ℤ
  pub status : RoundStatus
  pub pot_amount : ℤ
  pub street : Street
  pub acting_player_id : Option String
  pub current_highest_bet : ℤ
  pub minimum_raise_amount : ℤ
  pub is_action_closed : Bool
  pub last_aggressor_seat : Option ℤ
  pub engine_version : String
  pub state_version : ℤ
  pub completed_at : Option ℤ

pub record RoundPlayer : Type 0 where
  pub player_id : String
  pub seat_number : ℤ
  pub stack_remaining : ℤ
  pub committed_this_street : ℤ
  pub committed_this_hand : ℤ
  pub has_folded : Bool
  pub is_all_in : Bool
  pub is_active_in_hand : Bool

pub record RoundPayout : Type 0 where
  pub round_id : String
  pub pot_index : ℕ
  pub pot_type : String
  pub player_id : String
  pub amount : ℤ

pub record Bet : Type 0 where
  pub bet_id : String
  pub round_id : String
  pub player_id : String
  pub action : BetAction
  pub amount : ℤ
  pub idempotency_key : Option String

-- The keys of the JSON column `detail` that the ledger reads.
pub record Detail : Type 0 where
  pub old_player_id : Option String
  pub old_amount : Option ℤ
  pub street : Option String

pub record HandLedgerEntry : Type 0 where
  pub entry_id : String
  pub round_id : String
  pub entry_type : LedgerEntryType
  pub player_id : Option String
  pub amount : Option ℤ
  pub detail : Option Detail
  pub original_entry_id : Option String
  pub dealer_id : Option String
