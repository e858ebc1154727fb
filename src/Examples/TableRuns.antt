-- ===== src/Examples/TableRuns.antt =====
-- Commands on a game and its table, and the betting of one round
-- (services/game-service/app/application/commands, services/game-service/app/domain).
use poker_room_backend.Prelude.{
  ◌≤◌, ℤ, pos, ◌+ℤ◌, ◌≤ℤ◌, ◌≡◌, refl, true, false, some, none, List, [], ◌∷◌, arith, length,
  get_elem?,
}
use poker_room_backend.Prelude.Sorting.{sorted, insert_by}
use poker_room_backend.Domain.Constants.{GameStatus, RoundStatus, Street, GameEventType}
use poker_room_backend.Domain.Exceptions.{ok}
use poker_room_backend.Domain.Models.{Game, Round}
use poker_room_backend.Domain.RoomConfig.{
  BlindLevelConfig, RoomConfig, active_players, active_seats, blind_level,
}
use poker_room_backend.Engine.Positions.{
  contains, index, positions_from, assign_positions, rotate_positions,
}
use poker_room_backend.Engine.Positions.NextSeat.{IsNextSeat}
use poker_room_backend.Engine.Positions.Laws.{IsPlaced, next_index, rotate_positions_lem}
use poker_room_backend.Engine.TableRuntime.{TableStatus, TableRuntime, pause_session}
use poker_room_backend.Application.Rows.{OutboxEvent}
use poker_room_backend.Application.HandCompletion.{apply_hand_completion}
use poker_room_backend.Application.HandCompletion.Laws.{IsCompletion, apply_hand_completion_lem}
use poker_room_backend.Application.Snapshot.{load_room_snapshot}
use poker_room_backend.Application.GameCommands.{
  GameIds, StartedGame, started_game, active_games, start_new_game, start_game, advance_blinds,
}
use poker_room_backend.Application.GameCommands.Laws.{
  IsStarted, IsRaised, start_game_lem, advance_blinds_lem,
}
use poker_room_backend.Application.TableCommands.{
  pause_table, resume_table, load_runtime, count_completed_rounds,
}
use poker_room_backend.Application.TableCommands.Laws.{
  resume_table-pause_table, record_each, IsSynchronized, record_each-IsSynchronized,
}
use poker_room_backend.Examples.Tables.{room, game, first_level}

abbrev game_ids : GameIds
game_ids = record { game_id = "game"; now = pos 5 }

abbrev new_table : StartedGame
new_table = started_game game_ids "room" [] room (pos 1, pos 2, pos 3)

-- A room of two levels.
abbrev second_level : BlindLevelConfig
second_level = record first_level { level = pos 2; small_blind = pos 2; big_blind = pos 4 }

abbrev two_levels : RoomConfig
two_levels = record room { blind_levels = first_level ∷ second_level ∷ [] }

abbrev raised_game : Game
raised_game = record game { current_blind_level = pos 2; level_started_at = some (pos 9) }

abbrev blinds_event : OutboxEvent
blinds_event = record { event_type = GameEventType.blinds_increased; subject = "game" }

abbrev paused_game : Game
paused_game = record game { status = GameStatus.paused }

abbrev paused_table : TableRuntime
paused_table = pause_session (load_runtime (pos 7) game room)

table_runs :
    (start_game game_ids "room" [] (ok room) (ok tt) ≡ ok (some new_table))
    × (advance_blinds (pos 9) (some game) two_levels ≡ ok (raised_game, second_level, blinds_event))
    × (pause_table (pos 7) (some game) room ≡ ok (paused_game, paused_table))
    × (length (active_games "room" []) ≤ 1)
unfolding start_game start_new_game active_games active_seats active_players sorted insert_by
    assign_positions positions_from contains index advance_blinds blind_level load_room_snapshot
    pause_table ◌+ℤ◌
table_runs = (refl, refl, refl, omega arith)

start_game_lem_example : (g : StartedGame) × (some new_table ≡ some g) × IsStarted "room" g
start_game_lem_example =
    start_game_lem game_ids "room" [] (ok room) (ok tt) table_runs.3 table_runs.0

advance_blinds_lem_example : IsRaised (pos 9) game two_levels raised_game second_level
advance_blinds_lem_example = advance_blinds_lem (pos 9) game two_levels table_runs.1

resume_table-pause_table_example :
    (paused_table.status ≡ TableStatus.paused)
    × (t' : TableRuntime) × (resume_table (pos 8) (some paused_game) room ≡ ok (game, t'))
    × (t'.status ≡ TableStatus.running)
resume_table-pause_table_example =
    resume_table-pause_table (pos 7) (pos 8) game paused_game room room table_runs.2

abbrev round_that : RoundStatus → Round
round_that status = record {
  round_id = "round";
  game_id = "game";
  round_number = pos 1;
  dealer_seat = pos 1;
  small_blind_seat = pos 2;
  big_blind_seat = pos 3;
  small_blind_amount = pos 1;
  big_blind_amount = pos 2;
  ante_amount = pos 0;
  status = status;
  pot_amount = pos 3;
  street = Street.pre_flop;
  acting_player_id = none;
  current_highest_bet = pos 2;
  minimum_raise_amount = pos 2;
  is_action_closed = false;
  last_aggressor_seat = none;
  engine_version = "1";
  state_version = pos 1;
  completed_at = none;
}

-- Two completed rounds and one in play.
abbrev three_rounds : List Round
three_rounds =
    round_that RoundStatus.completed
    ∷ round_that RoundStatus.completed
    ∷ round_that RoundStatus.active
    ∷ []

rounds_bound :
    (game.hands_played ≤ℤ count_completed_rounds three_rounds)
    × (count_completed_rounds three_rounds ≤ℤ game.hands_played +ℤ pos 3)
unfolding count_completed_rounds ◌+ℤ◌
rounds_bound = (omega arith, omega arith)

abbrev three_times : List ℤ
three_times = pos 10 ∷ pos 20 ∷ pos 30 ∷ []

record_each-IsSynchronized_example :
    (game' : Game) × (record_each three_times three_rounds two_levels game ≡ ok game')
    × IsSynchronized three_rounds two_levels game game'
record_each-IsSynchronized_example =
    record_each-IsSynchronized three_times three_rounds two_levels game rounds_bound.0
      rounds_bound.1

apply_hand_completion_lem_example :
    IsCompletion game two_levels true (apply_hand_completion (pos 10) game two_levels true)
apply_hand_completion_lem_example = apply_hand_completion_lem (pos 10) game two_levels true

abbrev three_seats : List ℤ
three_seats = pos 1 ∷ pos 4 ∷ pos 6 ∷ []

rotate_positions_lem_example :
    (t : ℤ × ℤ × ℤ) × (rotate_positions three_seats (pos 6) ≡ some t)
    × IsPlaced three_seats (next_index three_seats (pos 6)) t
    × (contains (pos 6) three_seats ≡ true → IsNextSeat three_seats (pos 6) t.0)
    × (contains (pos 6) three_seats ≡ false → get_elem? three_seats 0 ≡ some t.0)
rotate_positions_lem_example = rotate_positions_lem three_seats (pos 6) (omega arith)

-- A second game starts in the room of a paused one, which is resumed: the room has two active games.
abbrev second_table : StartedGame
second_table = started_game game_ids "room" (paused_game ∷ []) room (pos 1, pos 2, pos 3)

two_active_games :
    (start_game game_ids "room" (paused_game ∷ []) (ok room) (ok tt) ≡ ok (some second_table))
    × (length (active_games "room" (game ∷ second_table.game ∷ [])) ≡ 2)
unfolding start_game start_new_game active_games active_seats active_players sorted insert_by
    assign_positions positions_from contains index
two_active_games = (refl, refl)
