-- ===== src/Application/StartRound.antt =====
-- `GameCommandService.start_round`
-- (services/game-service/app/application/commands/game_command_service.py).
pub mod Laws
use poker_room_backend.Prelude.{
  ℕ, ◌+◌, ◌%◌, ℤ, pos, ◌+ℤ◌, String, Bool, true, false, not, Option, none, some, List, [], ◌∷◌,
  ◌++◌, map, str_eq, ltb_ℤ, leb_ℤ, eqb_ℤ, if◌then◌else◌, length, get_elem?, find_first, is_some,
}
use poker_room_backend.Domain.Constants.{
  Street, RoundStatus, GameEventType, LedgerEntryType, game_is_active,
}
use poker_room_backend.Domain.Exceptions.{DomainError, Result, ok, err, ◌>>=◌, ◌>>◌, raise_if}
use poker_room_backend.Domain.Models.{Game, Round, RoundPlayer, HandLedgerEntry, Detail}
use poker_room_backend.Domain.Rules.{no_limit_holdem}
use poker_room_backend.Domain.RoomConfig.{
  BlindLevelConfig, PlayerConfig, RoomConfig, active_players, active_seats, blind_level,
}
use poker_room_backend.Engine.Positions.{contains, index}
use poker_room_backend.Engine.BlindPosting.{
  SeatPlayer, PostedPlayer, BlindPostingResult, Blinds, post_blinds_and_antes,
}
use poker_room_backend.Application.Rows.{HandRows, OutboxEvent, add_event, no_detail}

pub record StartRoundRequest : Type 0 where
  pub started_by_player_id : Option String
  pub started_by_controller : Bool

-- `room_config.blind_level(...)`, or the first level of the room
unfoldable pub level_of : Game → RoomConfig → Option BlindLevelConfig
level_of game config = elim (blind_level config game.current_blind_level) [
  | some level ↦ some level
  | none ↦ elim config.blind_levels [ [] ↦ none | level ∷ levels ↦ some level ]
]

-- `_ante_amount`
unfoldable pub ante_amount : RoomConfig → BlindLevelConfig → ℤ
ante_amount config level = if config.antes_enabled then level.ante else pos 0

abbrev pub starts_as : Option String → PlayerConfig → Bool
starts_as none p = false
starts_as (some player_id) p = str_eq player_id p.player_id

-- `_require_round_start_authorized` does not raise
unfoldable pub may_start : Game → RoomConfig → StartRoundRequest → Bool
may_start game config data' =
    if data'.started_by_controller
    then true
    else elim (find_first (λ p. eqb_ℤ p.seat_number game.current_dealer_seat)
        (active_players config)) [
          | none ↦ false
          | some button ↦ starts_as data'.started_by_player_id button
        ]

-- The index of the first seat to act: behind the big blind.
unfoldable pub first_to_act_index : Game → List ℤ → ℕ
first_to_act_index game seats =
    if contains game.current_big_blind_seat seats
    then (index game.current_big_blind_seat seats + 1) % length seats
    else 0

abbrev pub seat_player : PlayerConfig → SeatPlayer
seat_player p = record {
  player_id = p.player_id;
  seat_number = p.seat_number;
  stack = p.chip_count;
}

abbrev pub blinds_of : Game → BlindLevelConfig → ℤ → Blinds
blinds_of game level ante = record {
  small_blind_seat = game.current_small_blind_seat;
  big_blind_seat = game.current_big_blind_seat;
  small_blind_amount = level.small_blind;
  big_blind_amount = level.big_blind;
  ante_amount = ante;
}

abbrev pub round_player : PostedPlayer → RoundPlayer
round_player pp = record {
  player_id = pp.player_id;
  seat_number = pp.seat_number;
  stack_remaining = pp.stack_remaining;
  committed_this_street = pp.committed_this_street;
  committed_this_hand = pp.committed_this_hand;
  has_folded = false;
  is_all_in = pp.is_all_in;
  is_active_in_hand = true;
}

-- The last player at the seat, as the loop leaves it.
unfoldable pub first_acting : ℤ → Option String → List PostedPlayer → Option String
first_acting seat found [] = found
first_acting seat found (pp ∷ pps) =
    first_acting seat (if eqb_ℤ pp.seat_number seat then some pp.player_id else found) pps

-- The ledger entry of a posting. `entry_id` is what `uuid4()` returns for the player.
abbrev pub posting_type : Game → PostedPlayer → LedgerEntryType
posting_type game pp =
    if eqb_ℤ pp.seat_number game.current_small_blind_seat
    then LedgerEntryType.blind_posted
    else if eqb_ℤ pp.seat_number game.current_big_blind_seat
    then LedgerEntryType.blind_posted
    else LedgerEntryType.ante_posted

-- `{"role": ...}` for a blind, of which the ledger reads no key, and `None` for an ante
abbrev pub posting_detail : Game → PostedPlayer → Option Detail
posting_detail game pp =
    if eqb_ℤ pp.seat_number game.current_small_blind_seat
    then some no_detail
    else if eqb_ℤ pp.seat_number game.current_big_blind_seat
    then some no_detail
    else none

abbrev pub posting_entry : (String → String) → String → Game → PostedPlayer → HandLedgerEntry
posting_entry entry_id round_id game pp = record {
  entry_id = entry_id pp.player_id;
  round_id = round_id;
  entry_type = posting_type game pp;
  player_id = some pp.player_id;
  amount = some pp.committed_this_hand;
  detail = posting_detail game pp;
  original_entry_id = none;
  dealer_id = none;
}

unfoldable pub posting_entries :
    (String → String) → String → Game → List PostedPlayer → List HandLedgerEntry
posting_entries entry_id round_id game [] = []
posting_entries entry_id round_id game (pp ∷ pps) =
    let rest = posting_entries entry_id round_id game pps in
    if leb_ℤ pp.committed_this_hand (pos 0)
    then rest
    else posting_entry entry_id round_id game pp ∷ rest

-- The values that the command draws or counts.
pub record RoundIds : Type 0 where
  pub round_id : String
  pub round_count : ℤ
  pub entry_id : String → String

unfoldable pub new_rows : RoundIds → Game → RoomConfig → BlindLevelConfig → ℤ → HandRows
new_rows ids game config level first_seat =
    let ante = ante_amount config level in
    let posting =
      post_blinds_and_antes (map seat_player (active_players config)) (blinds_of game level ante) in
    record {
      round = record {
        round_id = ids.round_id;
        game_id = game.game_id;
        round_number = ids.round_count +ℤ pos 1;
        dealer_seat = game.current_dealer_seat;
        small_blind_seat = game.current_small_blind_seat;
        big_blind_seat = game.current_big_blind_seat;
        small_blind_amount = level.small_blind;
        big_blind_amount = level.big_blind;
        ante_amount = ante;
        status = RoundStatus.active;
        pot_amount = posting.pot_total;
        street = Street.pre_flop;
        acting_player_id = first_acting first_seat none posting.players;
        current_highest_bet = posting.current_highest_bet;
        minimum_raise_amount = level.big_blind;
        is_action_closed = false;
        last_aggressor_seat = none;
        engine_version = no_limit_holdem.engine_version;
        state_version = pos 1;
        completed_at = none;
      };
      players = map round_player posting.players;
      bets = [];
      ledger = posting_entries ids.entry_id ids.round_id game posting.players;
      events = [];
    }

abbrev pub level_or_raise : Option BlindLevelConfig → Result BlindLevelConfig
level_or_raise none = err DomainError.not_found
level_or_raise (some level) = ok level

-- `none` is the index error of a room with no active player; `has_active` says that a round of the
-- game is under way.
unfoldable pub start_round :
    RoundIds → Game → Bool → RoomConfig → StartRoundRequest → Result (Option HandRows)
start_round ids game has_active config data' = do
  raise_if (not (game_is_active game.status)) DomainError.game_not_active
  raise_if has_active DomainError.game_not_active
  level ← level_or_raise (level_of game config)
  raise_if (not (may_start game config data')) DomainError.round_start_not_allowed
  ok (elim (get_elem? (active_seats config) (first_to_act_index game (active_seats config))) [
    | none ↦ none
    | some first_seat ↦
        some (add_event GameEventType.round_started (new_rows ids game config level first_seat))
  ])
