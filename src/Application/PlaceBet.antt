-- ===== src/Application/PlaceBet.antt =====
-- `BetCommandService.place_bet`
-- (services/game-service/app/application/commands/bet_command_service.py) and `cas_update_round`
-- (services/game-service/app/infrastructure/repositories/round_state_repository.py). Python's
-- `str.upper` is a parameter.
pub mod Laws
pub mod Retry
use poker_room_backend.Prelude.{
  ℤ, pos, ◌+ℤ◌, String, Bool, true, false, not, ◌&&◌, ◌||◌, Option, none, some, List, [], ◌∷◌,
  str_eq, eqb_ℤ, if◌then◌else◌, find_first,
}
use poker_room_backend.Domain.Constants.{BetAction, bet_action_of, eqb_action}
use poker_room_backend.Domain.Exceptions.{DomainError, Result, ok, err, ◌>>=◌, ◌>>◌, raise_if}
use poker_room_backend.Domain.Models.{Round, RoundPlayer, Bet}
use poker_room_backend.Domain.Rules.{no_limit_holdem}
use poker_room_backend.Engine.ActionPipeline.{ApplyActionResult, apply_action, version_or_one}
use poker_room_backend.Application.Rows.{HandRows, BetIds, bet_of, record_bet_action}

pub record BetRequest : Type 0 where
  pub round_id : String
  pub player_id : String
  pub action : String
  pub amount : ℤ
  pub idempotency_key : Option String
  pub expected_version : Option ℤ

abbrev pub action_or_raise : Option BetAction → Result BetAction
action_or_raise none = err DomainError.illegal_action
action_or_raise (some action) = ok action

abbrev pub same_key : String → Bet → Bool
same_key key b = elim b.idempotency_key [ none ↦ false | some k ↦ str_eq k key ]

-- `if data.idempotency_key:`, and the bet of the round with that key
unfoldable pub existing_bet : Option String → List Bet → Option Bet
existing_bet none bets = none
existing_bet (some key) bets = if str_eq key "" then none else find_first (same_key key) bets

abbrev pub same_payload : BetRequest → BetAction → Bet → Bool
same_payload data' action b =
    str_eq b.player_id data'.player_id && eqb_action b.action action && eqb_ℤ b.amount data'.amount

abbrev pub round_or_raise : Option HandRows → Result HandRows
round_or_raise none = err DomainError.not_found
round_or_raise (some rows) = ok rows

abbrev pub bets_of : Option HandRows → List Bet
bets_of none = []
bets_of (some rows) = rows.bets

-- `cas_update_round`: nothing is written if the stored version has moved on.
abbrev pub cas_update_round : ℤ → ℤ → Result (Unit {0})
cas_update_round stored_version expected_version =
    raise_if (not (eqb_ℤ stored_version expected_version)) DomainError.stale_state

-- The rows and the bet behind the idempotency check. `stored_version` is the version in the database
-- when the update runs, which another transaction may have moved since the rows were read.
unfoldable pub place_new_bet :
    BetIds → ℤ → HandRows → BetRequest → BetAction → Result (HandRows × Bet)
place_new_bet ids stored_version rows data' action = do
  (r', rps', res) ←
      apply_action rows.round rows.players data'.player_id (some action) data'.amount
        no_limit_holdem data'.expected_version
  cas_update_round stored_version (version_or_one rows.round.state_version)
  ok (
    record_bet_action ids data'.player_id res.action res.amount data'.idempotency_key
        (record rows { round = r'; players = rps' }),
    bet_of ids r'.round_id data'.player_id res.action res.amount data'.idempotency_key,
  )

unfoldable pub replay_or_place :
    BetIds
    → ℤ
    → Option HandRows
    → BetRequest
    → BetAction
    → Option Bet
    → Result (Option HandRows × Bet)
replay_or_place ids stored_version found data' action (some existing) =
    if same_payload data' action existing
    then ok (found, existing)
    else err DomainError.idempotency_conflict
replay_or_place ids stored_version found data' action none = do
  rows ← round_or_raise found
  (rows', bet) ← place_new_bet ids stored_version rows data' action
  ok (some rows', bet)

-- `found` holds the rows of the round that the request names, if there is one.
unfoldable pub place_bet :
    (String → String) → BetIds → ℤ → Option HandRows → BetRequest → Result (Option HandRows × Bet)
place_bet upper ids stored_version found data' = do
  action ← action_or_raise (bet_action_of (upper data'.action))
  replay_or_place ids stored_version found data' action
      (existing_bet data'.idempotency_key (bets_of found))
