-- ===== src/Application/GameCommands.antt =====
-- `GameCommandService.start_game`, `advance_blinds` and `end_game`
-- (services/game-service/app/application/commands/game_command_service.py). The answers of the room
-- service are arguments: a room that was fetched or an error, and whether a status was taken.
pub mod Laws
use poker_room_backend.Prelude.{
  ℤ, pos, ◌+ℤ◌, String, Bool, true, false, not, ◌&&◌, Option, none, some, List, [], ◌∷◌, ◌++◌,
  str_eq, ltb, leb_ℤ, if◌then◌else◌, length, select,
}
use poker_room_backend.Domain.Constants.{GameStatus, GameEventType, game_is_active}
use poker_room_backend.Domain.Exceptions.{DomainError, Result, ok, err, ◌>>=◌, ◌>>◌, raise_if}
use poker_room_backend.Domain.Models.{Game}
use poker_room_backend.Domain.RoomConfig.{BlindLevelConfig, RoomConfig, active_seats, blind_level}
use poker_room_backend.Engine.Positions.{assign_positions}
use poker_room_backend.Engine.SidePots.{is_empty}
use poker_room_backend.Application.Rows.{OutboxEvent}
use poker_room_backend.Application.HandCompletion.{max_level}
use poker_room_backend.Application.Snapshot.{load_room_snapshot}

-- What a new game draws: its identifier, and the time.
pub record GameIds : Type 0 where
  pub game_id : String
  pub now : ℤ

abbrev pub is_active_in : String → Game → Bool
is_active_in room_id g = str_eq g.room_id room_id && game_is_active g.status

unfoldable pub active_games : String → List Game → List Game
active_games room_id games = select (is_active_in room_id) games

abbrev pub new_game : GameIds → String → ℤ × ℤ × ℤ → Game
new_game ids room_id (dealer, small, big) = record {
  game_id = ids.game_id;
  room_id = room_id;
  status = GameStatus.active;
  current_blind_level = pos 1;
  level_started_at = some ids.now;
  current_dealer_seat = dealer;
  current_small_blind_seat = small;
  current_big_blind_seat = big;
  hands_played = pos 0;
  hands_at_current_level = pos 0;
}

-- The game, the snapshot of its room, and the table of games with it.
pub record StartedGame : Type 0 where
  pub game : Game
  pub snapshot : RoomConfig
  pub games : List Game
  pub event : OutboxEvent

abbrev pub started_game : GameIds → String → List Game → RoomConfig → ℤ × ℤ × ℤ → StartedGame
started_game ids room_id games config seats =
    let game = new_game ids room_id seats in
    record {
      game = game;
      snapshot = config;
      games = games ++ game ∷ [];
      event = record { event_type = GameEventType.started; subject = game.game_id };
    }

-- `none` is an index error of the positions, or the fault of a query that finds two active games.
unfoldable pub start_new_game :
    GameIds
    → String
    → List Game
    → Result RoomConfig
    → Result (Unit {0})
    → Result (Option StartedGame)
start_new_game ids room_id games fetched marked = do
  config ← fetched
  raise_if (is_empty config.blind_levels) DomainError.not_found
  raise_if (ltb (length (active_seats config)) 2) DomainError.game_not_active
  elim (assign_positions (active_seats config) config.starting_dealer_seat) [
    | none ↦ ok none
    | some seats ↦ marked >> ok (some (started_game ids room_id games config seats))
  ]

-- `existing = await get_active_game_for_room(...)` comes first.
unfoldable pub start_game :
    GameIds
    → String
    → List Game
    → Result RoomConfig
    → Result (Unit {0})
    → Result (Option StartedGame)
start_game ids room_id games fetched marked = elim (active_games room_id games) [
  | [] ↦ start_new_game ids room_id games fetched marked
  | existing ∷ others ↦ elim others [ [] ↦ err DomainError.game_already_exists | _ ∷ _ ↦ ok none ]
]

abbrev pub game_or_raise : Option Game → Result Game
game_or_raise none = err DomainError.not_found
game_or_raise (some game) = ok game

abbrev pub new_level_or_raise : Option BlindLevelConfig → Result BlindLevelConfig
new_level_or_raise none = err DomainError.game_not_active
new_level_or_raise (some level) = ok level

-- The game, the level and the event of raised blinds.
unfoldable pub advance_blinds :
    ℤ → Option Game → RoomConfig → Result (Game × BlindLevelConfig × OutboxEvent)
advance_blinds now found snapshot = do
  game ← game_or_raise found
  raise_if (not (game_is_active game.status)) DomainError.game_not_active
  let config = load_room_snapshot snapshot
  raise_if (leb_ℤ (max_level config) game.current_blind_level) DomainError.game_not_active
  let new_level_num = game.current_blind_level +ℤ pos 1
  new_level ← new_level_or_raise (blind_level config new_level_num)
  ok (
    record game { current_blind_level = new_level_num; level_started_at = some now },
    new_level,
    record { event_type = GameEventType.blinds_increased; subject = game.game_id },
  )

-- A game of any status is ended.
unfoldable pub end_game : Option Game → Result (Unit {0}) → Result (Game × OutboxEvent)
end_game found marked = do
  game ← game_or_raise found
  marked
      >> ok (
        record game { status = GameStatus.finished },
        record { event_type = GameEventType.finished; subject = game.game_id },
      )
