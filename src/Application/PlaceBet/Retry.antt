-- ===== src/Application/PlaceBet/Retry.antt =====
-- The idempotency key of `place_bet`
-- (services/game-service/app/application/commands/bet_command_service.py): a request that is sent
-- again.
use poker_room_backend.Prelude.{
  ℤ, pos, ◌-ℤ◌, ◌<ℤ◌, ◌≡◌, ◌≢◌, refl, sym, ap, ap₂, subst, ◌∙◌, String, Bool, true, false, ◌&&◌,
  Option, none, some, List, [], ◌∷◌, ◌++◌, arith, int_laws, str_eq, eq_iff, eqb_ℤ, if◌then◌else◌,
  find_first, Bool-cases, inl, inr,
}
use poker_room_backend.Domain.Constants.{BetAction, bet_action_of, eqb_action}
use poker_room_backend.Domain.Exceptions.{DomainError, Result, ok, err, >>=-eq-ok}
use poker_room_backend.Domain.Models.{Bet}
use poker_room_backend.Domain.Rules.{no_limit_holdem}
use poker_room_backend.Engine.Validator.{PlayerState, ValidatedAction, get_player}
use poker_room_backend.Engine.Validator.Legal.{Puts}
use poker_room_backend.Engine.ActionPipeline.{build_hand_context}
use poker_room_backend.Engine.ActionPipeline.Inversion.{apply_action-Accepted}
use poker_room_backend.Application.Rows.{HandRows, BetIds, record_bet_action}
use poker_room_backend.Application.PlaceBet.{
  BetRequest, same_key, existing_bet, place_new_bet, replay_or_place, place_bet,
}
use poker_room_backend.Application.PlaceBet.Laws.{Placed, place_new_bet-Placed}

find_first_new :
    (p : Bet → Bool) (bets : List Bet) (b : Bet)
    → find_first p bets ≡ none
    → p b ≡ true
    → find_first p (bets ++ b ∷ []) ≡ some b
find_first_new p [] b h e = rw e refl
find_first_new p (c ∷ bets) b h e = grind (arith, find_first_new p bets b)

module _ (ids : BetIds) (stored_version : ℤ) (rows : HandRows) (data' : BetRequest)
    (action : BetAction) {rows' : HandRows} {bet : Bet}
    (pl : Placed ids stored_version rows data' action rows' bet) (key : String)
    (keyed : data'.idempotency_key ≡ some key) (nonempty : key ≢ "")
    (new : existing_bet (some key) rows.bets ≡ none) where
  stored : rows'.bets ≡ rows.bets ++ bet ∷ []
  unfolding record_bet_action
  stored = rw (pl.new_rows, pl.new_bet) refl

  bet_key : same_key key bet ≡ true
  bet_key = ap (same_key key) pl.new_bet ∙ ap same keyed ∙ (eq_iff key key).1 refl
    where
      same : Option String → Bool
      same none = false
      same (some k) = str_eq k key

  found_again : existing_bet (some key) rows'.bets ≡ some bet
  unfolding existing_bet
  found_again = elim (Bool-cases (str_eq key "")) [
    | inl empty ↦ absurd (nonempty ((eq_iff key "").0 empty))
    | inr other ↦
        rw (other, stored) (find_first_new (same_key key) rows.bets bet (rw other at new) bet_key)
  ]

  same_player : str_eq bet.player_id data'.player_id ≡ true
  same_player = rw pl.new_bet ((eq_iff data'.player_id data'.player_id).1 refl)

-- A request that was placed, by its parts.
place_bet-Placed :
    (upper : String → String) (ids : BetIds) (stored_version : ℤ) (rows : HandRows)
    (data' : BetRequest) (action : BetAction) (key : String) {rows' : HandRows} {bet : Bet}
    → bet_action_of (upper data'.action) ≡ some action
    → data'.idempotency_key ≡ some key
    → existing_bet (some key) rows.bets ≡ none
    → place_bet upper ids stored_version (some rows) data' ≡ ok (some rows', bet)
    → Placed ids stored_version rows data' action rows' bet
unfolding place_bet replay_or_place
place_bet-Placed upper ids stored_version rows data' action key {rows'} {bet} h keyed new placed =
    let new' = ap (λ k. existing_bet k rows.bets) keyed ∙ new in
    let placed' = rw (h, new') at placed in
    let (t, found, same) =
      >>=-eq-ok (place_new_bet ids stored_version rows data' action) _ placed' in
    place_new_bet-Placed ids stored_version rows data' action (found ∙ same_result t same)
  where
    same_result :
        (t : HandRows × Bet)
        → ◌≡◌ {A = Result (Option HandRows × Bet)} (ok (some t.0, t.1)) (ok (some rows', bet))
        → ◌≡◌ {A = Result (HandRows × Bet)} (ok t) (ok (rows', bet))
    same_result (a, b) e = cc

-- A request with a new key that placed a bet, sent again to the rows that it left, writes nothing: it
-- returns the stored bet when that bet's action and amount are the requested ones, and is a conflict
-- otherwise.
pub place_bet_again :
    (upper : String → String) (ids ids' : BetIds) (stored_version stored_version' : ℤ)
    (rows : HandRows) (data' : BetRequest) (action : BetAction) (key : String) {rows' : HandRows}
    {bet : Bet}
    → bet_action_of (upper data'.action) ≡ some action
    → data'.idempotency_key ≡ some key
    → key ≢ ""
    → existing_bet (some key) rows.bets ≡ none
    → place_bet upper ids stored_version (some rows) data' ≡ ok (some rows', bet)
    → place_bet upper ids' stored_version' (some rows') data' ≡ (
        if eqb_action bet.action action && eqb_ℤ bet.amount data'.amount
        then ok (some rows', bet)
        else err DomainError.idempotency_conflict)
unfolding place_bet replay_or_place
place_bet_again upper ids ids' stored_version stored_version' rows data' action key {rows'} h keyed
      nonempty new placed =
    let pl = place_bet-Placed upper ids stored_version rows data' action key h keyed new placed in
    let found = found_again ids stored_version rows data' action pl key keyed nonempty new in
    rw
      (
        h,
        ap (λ k. existing_bet k rows'.bets) keyed ∙ found,
        same_player ids stored_version rows data' action pl key keyed nonempty new,
      )
      refl

raise_differs :
    (p : PlayerState) (amount : ℤ) (v : ValidatedAction)
    → pos 0 <ℤ p.committed_this_street
    → Puts p BetAction.raise (amount -ℤ p.committed_this_street) v
    → (eqb_action v.action BetAction.raise && eqb_ℤ v.amount amount) ≡ false
raise_differs p amount v h (inl all_in) = rw all_in.1 refl
raise_differs p amount v h (inr raised) = rw raised.1 (grind int_laws)

-- A keyed raise of a player who already had chips in the street is stored with the chips it added, not
-- with the requested total: the same request, sent again, is an idempotency conflict.
pub place_bet_again_raise :
    (upper : String → String) (ids ids' : BetIds) (stored_version stored_version' : ℤ)
    (rows : HandRows) (data' : BetRequest) (key : String) (p : PlayerState) {rows' : HandRows}
    {bet : Bet}
    → bet_action_of (upper data'.action) ≡ some BetAction.raise
    → data'.idempotency_key ≡ some key
    → key ≢ ""
    → existing_bet (some key) rows.bets ≡ none
    → get_player (build_hand_context rows.round rows.players) data'.player_id ≡ some p
    → pos 0 <ℤ p.committed_this_street
    → place_bet upper ids stored_version (some rows) data' ≡ ok (some rows', bet)
    → place_bet upper ids' stored_version' (some rows') data' ≡ err DomainError.idempotency_conflict
place_bet_again_raise upper ids ids' stored_version stored_version' rows data' key p {rows'} {bet} h
      keyed nonempty new found chips placed =
    let pl =
      place_bet-Placed upper ids stored_version rows data' BetAction.raise key h keyed new placed in
    let a =
      apply_action-Accepted rows.round rows.players data'.player_id (some BetAction.raise)
        data'.amount no_limit_holdem data'.expected_version pl.applied in
    let same : a.p ≡ p = some_inj (sym a.may_act.found ∙ found) in
    let differs =
      raise_differs a.p data'.amount a.v
        (subst (λ q. pos 0 <ℤ q.committed_this_street) (sym same) chips) a.legal.4 in
    place_bet_again upper ids ids' stored_version stored_version' rows data' BetAction.raise key h
      keyed nonempty new placed
    ∙ ap (λ (b : Bool). if b then ok (some rows', bet) else err DomainError.idempotency_conflict)
        (ap₂ (λ (a : BetAction) (x : ℤ). eqb_action a BetAction.raise && eqb_ℤ x data'.amount)
            (ap (λ b. b.action) pl.new_bet ∙ a.same_action)
            (ap (λ b. b.amount) pl.new_bet ∙ a.same_amount)
          ∙ differs)
  where
    some_inj : {x y : PlayerState} → some x ≡ some y → x ≡ y
    some_inj e = cc
