-- ===== src/Application/TableCommands.antt =====
-- `TableRuntimeCommandService`
-- (services/game-service/app/application/commands/table_runtime_command_service.py).
pub mod Laws
use poker_room_backend.Prelude.{
  ℤ, pos, ◌+ℤ◌, ◌-ℤ◌, ◌*ℤ◌, String, Bool, true, false, not, Option, none, some, List, [], ◌∷◌, map,
  ltb_ℤ, eqb_ℤ, max_ℤ, if◌then◌else◌,
}
use poker_room_backend.Domain.Constants.{GameStatus, RoundStatus, game_is_active}
use poker_room_backend.Domain.Exceptions.{DomainError, Result, ok, err, ◌>>=◌, ◌>>◌, raise_if}
use poker_room_backend.Domain.Models.{Game, Round}
use poker_room_backend.Domain.RoomConfig.{
  BlindLevelConfig, PlayerConfig, RoomConfig, active_players, blind_level,
}
use poker_room_backend.Engine.TableRuntime.{
  SeatStatus, TableStatus, TableSeat, TableRuntime, pause_session, resume_session,
}
use poker_room_backend.Application.HandCompletion.{
  HandCompletionResult, max_level, clock_of, apply_hand_completion, write_completion,
}
use poker_room_backend.Application.Snapshot.{load_room_snapshot}
use poker_room_backend.Application.GameCommands.{game_or_raise}

abbrev pub table_status : GameStatus → TableStatus
table_status GameStatus.active = TableStatus.running
table_status GameStatus.waiting = TableStatus.waiting
table_status GameStatus.paused = TableStatus.paused
table_status GameStatus.finished = TableStatus.finished

abbrev pub table_seat : PlayerConfig → TableSeat
table_seat p = record {
  seat_number = p.seat_number;
  player_id = some p.player_id;
  status = SeatStatus.active;
  chip_count = p.chip_count;
  hands_sat_out = pos 0;
}

-- `_build_runtime_from_game`
unfoldable pub build_runtime_from_game : ℤ → Game → List TableSeat → TableRuntime
build_runtime_from_game now game seats = record {
  game_id = game.game_id;
  status = table_status game.status;
  seats = seats;
  blind_clock = clock_of now game;
  hands_played = game.hands_played;
  dealer_seat = some game.current_dealer_seat;
}

-- `_load_runtime`, of the game that was found
unfoldable pub load_runtime : ℤ → Game → RoomConfig → TableRuntime
load_runtime now game snapshot =
    build_runtime_from_game now game (map table_seat (active_players (load_room_snapshot snapshot)))

abbrev pub is_paused_game : GameStatus → Bool
is_paused_game GameStatus.paused = true
is_paused_game _ = false

-- The table that was paused is thrown away with the request; the game keeps the status.
unfoldable pub pause_table : ℤ → Option Game → RoomConfig → Result (Game × TableRuntime)
pause_table now found snapshot = do
  game ← game_or_raise found
  raise_if (not (game_is_active game.status)) DomainError.game_not_active
  ok (record game { status = GameStatus.paused }, pause_session (load_runtime now game snapshot))

unfoldable pub resume_table : ℤ → Option Game → RoomConfig → Result (Game × TableRuntime)
resume_table now found snapshot = do
  game ← game_or_raise found
  raise_if (not (is_paused_game game.status)) DomainError.game_not_active
  runtime ← resume_session (load_runtime now game snapshot)
  ok (record game { status = GameStatus.active }, runtime)

abbrev pub is_completed_round : RoundStatus → Bool
is_completed_round RoundStatus.completed = true
is_completed_round RoundStatus.active = false

-- `count_completed_rounds`, on the rounds of the game
unfoldable pub count_completed_rounds : List Round → ℤ
count_completed_rounds [] = pos 0
count_completed_rounds (r ∷ rs) =
    (if is_completed_round r.status then pos 1 else pos 0) +ℤ count_completed_rounds rs

unfoldable pub record_hand_completed :
    ℤ → Option Game → List Round → RoomConfig → Result (Game × HandCompletionResult)
record_hand_completed now found rounds snapshot = do
  game ← game_or_raise found
  let should_count_hand = ltb_ℤ game.hands_played (count_completed_rounds rounds)
  let completion = apply_hand_completion now game (load_room_snapshot snapshot) should_count_hand
  ok (write_completion completion game, completion)

pub record SessionStatus : Type 0 where
  pub game_id : String
  pub status : GameStatus
  pub hands_played : ℤ
  pub current_blind_level : ℤ
  pub hands_at_current_level : ℤ
  pub seconds_until_blind_advance : Option ℤ
  pub max_blind_level : ℤ
  pub small_blind : Option ℤ
  pub big_blind : Option ℤ
  pub ante : ℤ
  pub dealer_seat : ℤ

-- `max(0, int((minutes * 60) - elapsed))`, of times in microseconds: `whole_seconds` is `int(...)` of
-- as many seconds.
abbrev pub remaining : (ℤ → ℤ) → ℤ → ℤ → ℤ → ℤ
remaining whole_seconds now minutes started =
    max_ℤ (pos 0) (whole_seconds ((minutes *ℤ pos 60) *ℤ pos 1000000 -ℤ (now -ℤ started)))

unfoldable pub seconds_until_blind_advance : (ℤ → ℤ) → ℤ → Game → RoomConfig → Option ℤ
seconds_until_blind_advance whole_seconds now game config =
    elim (blind_level config game.current_blind_level) [
      | none ↦ none
      | some level ↦ elim level.duration_minutes [
        | none ↦ none
        | some minutes ↦ elim game.level_started_at [
          | none ↦ none
          | some started ↦
              if eqb_ℤ minutes (pos 0)
              then none
              else if ltb_ℤ game.current_blind_level (max_level config)
              then some (remaining whole_seconds now minutes started)
              else none
        ]
      ]
    ]

unfoldable pub get_session_status : (ℤ → ℤ) → ℤ → Option Game → RoomConfig → Result SessionStatus
get_session_status whole_seconds now found snapshot = do
  game ← game_or_raise found
  let config = load_room_snapshot snapshot
  let current_bl = blind_level config game.current_blind_level
  ok (record {
    game_id = game.game_id;
    status = game.status;
    hands_played = game.hands_played;
    current_blind_level = game.current_blind_level;
    hands_at_current_level = game.hands_at_current_level;
    seconds_until_blind_advance = seconds_until_blind_advance whole_seconds now game config;
    max_blind_level = max_level config;
    small_blind = elim current_bl [ none ↦ none | some level ↦ some level.small_blind ];
    big_blind = elim current_bl [ none ↦ none | some level ↦ some level.big_blind ];
    ante = elim current_bl [
      | none ↦ pos 0
      | some level ↦ if config.antes_enabled then level.ante else pos 0
    ];
    dealer_seat = game.current_dealer_seat;
  })
