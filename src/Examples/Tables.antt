-- ===== src/Examples/Tables.antt =====
-- The room, the game and the first commands that the examples share
-- (services/game-service/app/domain/models.py).
use poker_room_backend.Prelude.{ℤ, pos, String, true, false, Option, none, some, List, [], ◌∷◌}
use poker_room_backend.Domain.Constants.{GameStatus, BetAction}
use poker_room_backend.Domain.Exceptions.{Result, ok, err}
use poker_room_backend.Domain.Models.{Game, Bet, Round, RoundPlayer}
use poker_room_backend.Engine.ActionPipeline.{ApplyActionResult}
use poker_room_backend.Domain.RoomConfig.{BlindLevelConfig, PlayerConfig, RoomConfig}
use poker_room_backend.Engine.StreetProgression.{StreetAdvanceResult}
use poker_room_backend.Application.Rows.{HandRows, BetIds}
use poker_room_backend.Application.PlaceBet.{BetRequest}
use poker_room_backend.Application.StartRound.{StartRoundRequest, RoundIds}

abbrev pub player : String → ℤ → ℤ → PlayerConfig
player player_id seat chip_count = record {
  player_id = player_id;
  seat_number = seat;
  chip_count = chip_count;
  is_active = true;
  is_eliminated = false;
}

abbrev pub first_level : BlindLevelConfig
first_level = record {
  level = pos 1;
  small_blind = pos 1;
  big_blind = pos 2;
  ante = pos 0;
  duration_minutes = none;
}

-- Three players, blinds of 1 and 2.
abbrev pub room : RoomConfig
room = record {
  room_id = "room";
  starting_dealer_seat = pos 1;
  antes_enabled = false;
  players =
      player "ann" (pos 1) (pos 100)
      ∷ player "bob" (pos 2) (pos 50)
      ∷ player "cat" (pos 3) (pos 80)
      ∷ [];
  blind_levels = first_level ∷ [];
}

abbrev pub game : Game
game = record {
  game_id = "game";
  room_id = "room";
  status = GameStatus.active;
  current_blind_level = pos 1;
  level_started_at = none;
  current_dealer_seat = pos 1;
  current_small_blind_seat = pos 2;
  current_big_blind_seat = pos 3;
  hands_played = pos 0;
  hands_at_current_level = pos 0;
}

abbrev pub round_ids : RoundIds
round_ids = record { round_id = "round"; round_count = pos 0; entry_id = λ player_id. player_id }

abbrev pub by_controller : StartRoundRequest
by_controller = record { started_by_player_id = none; started_by_controller = true }

abbrev pub bet_ids : BetIds
bet_ids = record { bet_id = "bet"; entry_id = "entry" }

abbrev pub request : String → String → ℤ → Option String → BetRequest
request player_id action amount key = record {
  round_id = "round";
  player_id = player_id;
  action = action;
  amount = amount;
  idempotency_key = key;
  expected_version = none;
}

-- The rows of a result, `rows` when there are none.
abbrev pub started_rows : HandRows → Result (Option HandRows) → HandRows
started_rows rows (ok (some rows')) = rows'
started_rows rows _ = rows

abbrev pub street_rows : HandRows → Result (HandRows × StreetAdvanceResult) → HandRows
street_rows rows (ok (rows', res)) = rows'
street_rows rows (err e) = rows

-- What an action came to, a fold when it is an error.
abbrev pub applied_result :
    Result (Round × List RoundPlayer × ApplyActionResult) → ApplyActionResult
applied_result (ok (r, rps, res)) = res
applied_result (err e) = record {
  action = BetAction.fold;
  amount = pos 0;
  is_round_closed = false;
  next_player_id = none;
}

abbrev pub placed_rows : HandRows → Result (HandRows × Bet) → HandRows
placed_rows rows (ok (rows', bet)) = rows'
placed_rows rows (err e) = rows

abbrev pub placed_bet : Bet → Result (HandRows × Bet) → Bet
placed_bet bet (ok (rows', bet')) = bet'
placed_bet bet (err e) = bet

abbrev pub corrected_rows : HandRows → Result HandRows → HandRows
corrected_rows rows (ok rows') = rows'
corrected_rows rows (err e) = rows
