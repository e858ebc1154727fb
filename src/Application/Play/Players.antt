-- ===== src/Application/Play/Players.antt =====
-- The players of a hand stay the same through its bets and streets.
use poker_room_backend.Prelude.{
  ◌≡◌, refl, ap, ◌∙◌, ℤ, String, not, some, List, [], ◌∷◌, map, str_eq, inl, inr, Bool-cases,
}
use poker_room_backend.Domain.Constants.{StreetAdvanceAction, GameEventType, round_is_active}
use poker_room_backend.Domain.Exceptions.{ok, raise_if-eq-ok}
use poker_room_backend.Domain.Models.{Game, Bet, RoundPlayer}
use poker_room_backend.Domain.Rules.{no_limit_holdem}
use poker_room_backend.Domain.RoomConfig.{RoomConfig, active_players}
use poker_room_backend.Engine.StreetProgression.{StreetAdvanceResult}
use poker_room_backend.Engine.ActionPipeline.{PlayerMutation, mutate_player, mutate_players}
use poker_room_backend.Engine.ActionPipeline.Inversion.{apply_action-Accepted}
use poker_room_backend.Application.Rows.{HandRows, BetIds, record_bet_action, add_event}
use poker_room_backend.Application.PlaceBet.{BetRequest, place_bet}
use poker_room_backend.Application.PlaceBet.Laws.{place_bet-Outcome}
use poker_room_backend.Application.StreetCommands.{
  advance_street, write_street, clear_street, is_showdown, street_end,
}
use poker_room_backend.Application.StartRound.Laws.{HasFairLevels, start_round_players}
use poker_room_backend.Application.Play.{Play, started, bet, street}

abbrev ids_of : List RoundPlayer → List String
ids_of = map (λ rp. rp.player_id)

ids-mutate_players :
    (pm : PlayerMutation) (rps : List RoundPlayer) → ids_of (mutate_players pm rps) ≡ ids_of rps
unfolding mutate_players mutate_player
ids-mutate_players pm [] = refl
ids-mutate_players pm (rp ∷ rps) = elim (Bool-cases (str_eq rp.player_id pm.player_id)) [
  | inl it ↦ rw it refl
  | inr other ↦ rw other (ap (λ xs. rp.player_id ∷ xs) (ids-mutate_players pm rps))
]

ids-clear_street : (rps : List RoundPlayer) → ids_of (map clear_street rps) ≡ ids_of rps
ids-clear_street [] = refl
ids-clear_street (rp ∷ rps) = ap (λ xs. rp.player_id ∷ xs) (ids-clear_street rps)

ids-write_street :
    (res : StreetAdvanceResult) (action : StreetAdvanceAction) (rows : HandRows)
    → ids_of (write_street res action rows).players ≡ ids_of rows.players
unfolding write_street
ids-write_street res StreetAdvanceAction.settle_hand rows = refl
ids-write_street res StreetAdvanceAction.showdown rows = ids-clear_street rows.players
ids-write_street res StreetAdvanceAction.next_street rows = ids-clear_street rows.players

ids-place_bet :
    (upper : String → String) (ids : BetIds) (stored_version : ℤ) (rows : HandRows)
    (data' : BetRequest) {rows' : HandRows} {b : Bet}
    → place_bet upper ids stored_version (some rows) data' ≡ ok (some rows', b)
    → ids_of rows'.players ≡ ids_of rows.players
unfolding record_bet_action
ids-place_bet upper ids stored_version rows data' h =
    elim (place_bet-Outcome upper ids stored_version rows data' h) [
      | inl same ↦ ap (λ r. ids_of r.players) same
      | inr (action, pl) ↦
          (let a =
              apply_action-Accepted rows.round rows.players data'.player_id (some action)
                data'.amount no_limit_holdem data'.expected_version pl.applied in
            ap (λ r. ids_of r.players) pl.new_rows
            ∙ ap ids_of a.new_players
            ∙ ids-mutate_players _ rows.players)
    ]

ids-advance_street :
    (rows : HandRows) {rows' : HandRows} {res : StreetAdvanceResult}
    → advance_street rows ≡ ok (rows', res)
    → ids_of rows'.players ≡ ids_of rows.players
unfolding advance_street
ids-advance_street rows {rows'} {res} h =
    let (_, h1) = raise_if-eq-ok (not (round_is_active rows.round.status)) _ _ h in
    let (_, h2) = raise_if-eq-ok (is_showdown rows.round.street) _ _ h1 in
    let e : rows'
        ≡ add_event GameEventType.street_advanced
            (write_street (street_end rows) (street_end rows).action rows) =
      cc in
    ap (λ r. ids_of r.players) e ∙ ids-write_street (street_end rows) (street_end rows).action rows

-- The players of a hand are the active players of the room it was dealt from, in their order.
pub Play-players :
    {game : Game} {config : RoomConfig} {rows : HandRows}
    → HasFairLevels config
    → Play game config rows
    → ids_of rows.players ≡ map (λ p. p.player_id) (active_players config)
Play-players {game} {config} fair (started ids has_active data' h) =
    start_round_players ids game has_active config data' fair h
Play-players fair (bet upper ids stored_version data' {rows} before h) =
    ids-place_bet upper ids stored_version rows data' h ∙ Play-players fair before
Play-players fair (street {rows} before h) = ids-advance_street rows h ∙ Play-players fair before
