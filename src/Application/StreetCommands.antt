-- ===== src/Application/StreetCommands.antt =====
-- `GameCommandService.advance_street`
-- (services/game-service/app/application/commands/game_command_service.py). It neither reads
-- `is_action_closed` nor compares versions.
pub mod Laws
use poker_room_backend.Prelude.{
  ℤ, pos, ◌+ℤ◌, String, Bool, true, false, not, Option, none, some, List, map, if◌then◌else◌,
  or_else,
}
use poker_room_backend.Domain.Constants.{
  Street, RoundStatus, StreetAdvanceAction, GameEventType, round_is_active,
}
use poker_room_backend.Domain.Exceptions.{DomainError, Result, ok, ◌>>=◌, ◌>>◌, raise_if}
use poker_room_backend.Domain.Models.{Round, RoundPlayer}
use poker_room_backend.Engine.ActionPipeline.{version_or_one}
use poker_room_backend.Engine.StreetProgression.{
  PlayerSeat, StreetAdvanceResult, evaluate_street_end,
}
use poker_room_backend.Application.Rows.{HandRows, add_event}

abbrev pub player_seat : RoundPlayer → PlayerSeat
player_seat rp = record {
  player_id = rp.player_id;
  seat_number = rp.seat_number;
  has_folded = rp.has_folded;
  is_all_in = rp.is_all_in;
  is_active_in_hand = rp.is_active_in_hand;
}

abbrev pub is_showdown : Street → Bool
is_showdown Street.showdown = true
is_showdown _ = false

-- `rp.committed_this_street = 0`
abbrev pub clear_street : RoundPlayer → RoundPlayer
clear_street rp = record rp { committed_this_street = pos 0 }

abbrev pub bump_version : Round → Round
bump_version r = record r { state_version = version_or_one r.state_version +ℤ pos 1 }

-- The writes of each result. The column `street` takes no `None`: with this result it is never one.
unfoldable pub write_street : StreetAdvanceResult → StreetAdvanceAction → HandRows → HandRows
write_street res StreetAdvanceAction.settle_hand rows = record rows {
  round = bump_version (record rows.round { is_action_closed = true; acting_player_id = none });
}
write_street res StreetAdvanceAction.showdown rows = record rows {
  round = bump_version (record rows.round {
    street = Street.showdown;
    is_action_closed = true;
    acting_player_id = none;
    current_highest_bet = pos 0;
  });
  players = map clear_street rows.players;
}
write_street res StreetAdvanceAction.next_street rows = record rows {
  round = bump_version (record rows.round {
    street = or_else res.next_street rows.round.street;
    current_highest_bet = pos 0;
    minimum_raise_amount = rows.round.big_blind_amount;
    acting_player_id = res.acting_player_id;
    is_action_closed = false;
    last_aggressor_seat = none;
  });
  players = map clear_street rows.players;
}

abbrev pub street_end : HandRows → StreetAdvanceResult
street_end rows =
    evaluate_street_end rows.round.street rows.round.dealer_seat rows.round.big_blind_seat
      (map player_seat rows.players)

unfoldable pub advance_street : HandRows → Result (HandRows × StreetAdvanceResult)
advance_street rows = do
  raise_if (not (round_is_active rows.round.status)) DomainError.round_not_active
  raise_if (is_showdown rows.round.street) DomainError.already_at_showdown
  let res = street_end rows
  ok (add_event GameEventType.street_advanced (write_street res res.action rows), res)
