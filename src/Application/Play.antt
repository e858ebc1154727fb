-- ===== src/Application/Play.antt =====
-- A hand as the commands run it: the rows that `start_round` writes, and every sequence of placed bets
-- and moved streets from them (services/game-service/app/application/commands).
pub mod Players
use poker_room_backend.Prelude.{ℤ, ◌≡◌, ◌∙◌, String, Bool, some, sum_by}
use poker_room_backend.Domain.Exceptions.{ok}
use poker_room_backend.Domain.Models.{Game, Bet}
use poker_room_backend.Domain.RoomConfig.{RoomConfig, active_players}
use poker_room_backend.Engine.StreetProgression.{StreetAdvanceResult}
use poker_room_backend.Application.Rows.{HandRows, BetIds}
use poker_room_backend.Application.Consistency.{IsConsistent, chips_of}
use poker_room_backend.Application.PlaceBet.{BetRequest, place_bet}
use poker_room_backend.Application.PlaceBet.Laws.{place_bet_lem}
use poker_room_backend.Application.StreetCommands.{advance_street}
use poker_room_backend.Application.StreetCommands.Laws.{advance_street_lem}
use poker_room_backend.Application.StartRound.{StartRoundRequest, RoundIds, start_round}
use poker_room_backend.Application.StartRound.Laws.{HasFairLevels, start_round_lem}

-- The rows that commands reach from the start of a round.
pub data Play (game : Game) (config : RoomConfig) : HandRows → Type 0 where
  started :
      (ids : RoundIds) (has_active : Bool) (data' : StartRoundRequest) {rows : HandRows}
      → start_round ids game has_active config data' ≡ ok (some rows)
      → Play game config rows
  bet :
      (upper : String → String) (ids : BetIds) (stored_version : ℤ) (data' : BetRequest)
      {rows rows' : HandRows} {b : Bet}
      → Play game config rows
      → place_bet upper ids stored_version (some rows) data' ≡ ok (some rows', b)
      → Play game config rows'
  street :
      {rows rows' : HandRows} {res : StreetAdvanceResult}
      → Play game config rows
      → advance_street rows ≡ ok (rows', res)
      → Play game config rows'

-- In every hand of a room whose blind levels are 0 or more, after every sequence of bets and street
-- moves that the commands accept, the rows are consistent (no stack is negative, the stored pot is the
-- sum of the commitments and what the ledger replays to), and the stacks and the pot hold exactly the
-- chips that the active players brought.
pub Play-IsConsistent :
    {game : Game} {config : RoomConfig} {rows : HandRows}
    → HasFairLevels config
    → Play game config rows
    → IsConsistent rows × (chips_of rows ≡ sum_by (λ p. p.chip_count) (active_players config))
Play-IsConsistent {game} {config} fair (started ids has_active data' h) =
    start_round_lem ids game has_active config data' fair h
Play-IsConsistent fair (bet upper ids stored_version data' {rows} before h) =
    let (c, chips) = Play-IsConsistent fair before in
    let (c', chips') = place_bet_lem upper ids stored_version rows data' c h in (c', chips' ∙ chips)
Play-IsConsistent fair (street {rows} before h) =
    let (c, chips) = Play-IsConsistent fair before in
    let (c', chips', _) = advance_street_lem rows c h in (c', chips' ∙ chips)
