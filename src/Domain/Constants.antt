-- ===== src/Domain/Constants.antt =====
-- The enumerations of services/game-service/app/domain/constants.py. A stored string that a CHECK
-- constraint holds to the values of an enumeration is the enumeration.
use poker_room_backend.Prelude.{
  Bool, true, false, String, Option, none, some, str_eq, if◌then◌else◌,
}

pub data GameStatus : Type 0 where
  waiting active paused finished : GameStatus

pub data RoundStatus : Type 0 where
  active completed : RoundStatus

pub data Street : Type 0 where
  pre_flop flop turn river showdown : Street

pub data StreetAdvanceAction : Type 0 where
  next_street settle_hand showdown : StreetAdvanceAction

pub data LedgerEntryType : Type 0 where
  blind_posted ante_posted bet_placed street_dealt payout_awarded round_completed : LedgerEntryType
  action_reversed stack_adjusted hand_reopened payout_corrected : LedgerEntryType

-- `entry_type in CORRECTION_ENTRY_TYPES`
abbrev pub is_correction : LedgerEntryType → Bool
is_correction LedgerEntryType.action_reversed = true
is_correction LedgerEntryType.stack_adjusted = true
is_correction LedgerEntryType.hand_reopened = true
is_correction LedgerEntryType.payout_corrected = true
is_correction _ = false

pub data BetAction : Type 0 where
  fold check call bet raise all_in : BetAction

pub data GameEventType : Type 0 where
  started round_started round_completed street_advanced blinds_increased : GameEventType
  correction_applied bet_placed finished : GameEventType

-- `status == GameStatus.ACTIVE`
abbrev pub game_is_active : GameStatus → Bool
game_is_active GameStatus.active = true
game_is_active _ = false

-- `status == RoundStatus.ACTIVE`
abbrev pub round_is_active : RoundStatus → Bool
round_is_active RoundStatus.active = true
round_is_active RoundStatus.completed = false

-- `a == b` between bet actions
abbrev pub eqb_action : BetAction → BetAction → Bool
eqb_action BetAction.fold BetAction.fold = true
eqb_action BetAction.check BetAction.check = true
eqb_action BetAction.call BetAction.call = true
eqb_action BetAction.bet BetAction.bet = true
eqb_action BetAction.raise BetAction.raise = true
eqb_action BetAction.all_in BetAction.all_in = true
eqb_action _ _ = false

-- The member of `BetAction` that an upper-case string spells (`VALID_BET_ACTIONS`), if any.
unfoldable pub bet_action_of : String → Option BetAction
bet_action_of s =
    if str_eq s "FOLD"
    then some BetAction.fold
    else if str_eq s "CHECK"
    then some BetAction.check
    else if str_eq s "CALL"
    then some BetAction.call
    else if str_eq s "BET"
    then some BetAction.bet
    else if str_eq s "RAISE"
    then some BetAction.raise
    else if str_eq s "ALL_IN"
    then some BetAction.all_in
    else none
