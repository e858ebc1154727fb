-- ===== src/Application/PlaceBet/Laws.antt =====
-- A bet that is placed keeps the rows consistent and the chips on the table.
use poker_room_backend.Prelude.{
  ℤ, pos, ◌+ℤ◌, ◌≡◌, ◌≢◌, ◌⊎◌, sym, ap, subst, ◌∙◌, String, not, Option, none, some, List, inl, inr,
  arith, int_laws, eqb_ℤ, eqb_ℤ_iff, Bool-cases,
}
use poker_room_backend.Domain.Constants.{BetAction, bet_action_of}
use poker_room_backend.Domain.Exceptions.{Result, ok, ◌>>=◌, >>=-eq-ok, raise_if-eq-ok}
use poker_room_backend.Domain.Models.{Round, RoundPlayer, Bet}
use poker_room_backend.Domain.Rules.{no_limit_holdem}
use poker_room_backend.Engine.ActionPipeline.{
  ApplyActionResult, apply_action, version_or_one, mutate_round,
}
use poker_room_backend.Engine.ActionPipeline.Inversion.{apply_action-Accepted}
use poker_room_backend.Engine.ActionPipeline.Conservation.{chips-apply_action}
use poker_room_backend.Engine.ActionPipeline.Invariant.{apply_action-IsSound}
use poker_room_backend.Application.Rows.{HandRows, BetIds, bet_of, record_bet_action}
use poker_room_backend.Application.Consistency.{
  IsConsistent, chips_of, ledger_pot, get_hand_state_pot, ledger_pot-record_bet_action,
}
use poker_room_backend.Application.PlaceBet.{
  BetRequest, action_or_raise, cas_update_round, place_new_bet, replay_or_place, place_bet,
  same_payload,
}

-- A bet that was placed, by the parts of the command.
pub record Placed (ids : BetIds) (stored_version : ℤ) (rows : HandRows) (data' : BetRequest)
    (action : BetAction) (rows' : HandRows) (bet : Bet) : Type 0 where
  pub r' : Round
  pub rps' : List RoundPlayer
  pub res : ApplyActionResult
  pub applied :
      apply_action rows.round rows.players data'.player_id
        (some action)
        data'.amount
        no_limit_holdem
        data'.expected_version
      ≡ ok (r', rps', res)
  pub current : stored_version ≡ version_or_one rows.round.state_version
  pub new_rows :
      rows'
      ≡ record_bet_action ids data'.player_id res.action res.amount data'.idempotency_key
          (record rows { round = r'; players = rps' })
  pub new_bet :
      bet ≡ bet_of ids r'.round_id data'.player_id res.action res.amount data'.idempotency_key

pub place_new_bet-Placed :
    (ids : BetIds) (stored_version : ℤ) (rows : HandRows) (data' : BetRequest) (action : BetAction)
    {rows' : HandRows} {bet : Bet}
    → place_new_bet ids stored_version rows data' action ≡ ok (rows', bet)
    → Placed ids stored_version rows data' action rows' bet
unfolding place_new_bet
place_new_bet-Placed ids stored_version rows data' action {rows'} {bet} h =
    let (t, applied, h1) =
      >>=-eq-ok
        (apply_action rows.round rows.players data'.player_id (some action) data'.amount
          no_limit_holdem data'.expected_version)
        _ h in
    placed t applied h1
  where
    placed :
        (t : Round × List RoundPlayer × ApplyActionResult)
        → apply_action rows.round rows.players data'.player_id
            (some action)
            data'.amount
            no_limit_holdem
            data'.expected_version
          ≡ ok t
        → ◌≡◌ {A = Result (HandRows × Bet)}
            (cas_update_round stored_version (version_or_one rows.round.state_version) >>= λ _. ok (
              record_bet_action ids data'.player_id t.2.action t.2.amount data'.idempotency_key
                  (record rows { round = t.0; players = t.1 }),
              bet_of ids t.0.round_id data'.player_id t.2.action t.2.amount data'.idempotency_key,
            ))
            (ok (rows', bet))
        → Placed ids stored_version rows data' action rows' bet
    placed (r', rps', res) applied h1 =
        let (fresh, h2) =
          raise_if-eq-ok (not (eqb_ℤ stored_version (version_or_one rows.round.state_version))) _ _
            h1 in
        record {
          r' = r';
          rps' = rps';
          res = res;
          applied = applied;
          current =
              ground (arith, eqb_ℤ_iff stored_version (version_or_one rows.round.state_version));
          new_rows = cc;
          new_bet = cc;
        }

module _ (ids : BetIds) (stored_version : ℤ) (rows : HandRows) (data' : BetRequest)
    (action : BetAction) {rows' : HandRows} {bet : Bet}
    (pl : Placed ids stored_version rows data' action rows' bet) where
  round_kept : rows'.round ≡ pl.r'
  unfolding record_bet_action
  round_kept = ap (λ t. t.round) pl.new_rows

  players_kept : rows'.players ≡ pl.rps'
  unfolding record_bet_action
  players_kept = ap (λ t. t.players) pl.new_rows

  Placed-chips : chips_of rows' ≡ chips_of rows
  Placed-chips =
      rw (round_kept, players_kept)
        (chips-apply_action rows.round rows.players data'.player_id (some action) data'.amount
          no_limit_holdem data'.expected_version pl.applied).0

  ledger_moved : ledger_pot rows'.ledger ≡ ledger_pot rows.ledger +ℤ pl.res.amount
  ledger_moved =
      ap (λ t. ledger_pot t.ledger) pl.new_rows
      ∙ ledger_pot-record_bet_action ids data'.player_id pl.res.action pl.res.amount
          data'.idempotency_key (record rows { round = pl.r'; players = pl.rps' })

  Placed-IsConsistent : IsConsistent rows → IsConsistent rows'
  Placed-IsConsistent c =
      let s =
        apply_action-IsSound rows.round rows.players data'.player_id (some action) data'.amount
          no_limit_holdem data'.expected_version c.sound pl.applied in
      let moved =
        (chips-apply_action rows.round rows.players data'.player_id (some action) data'.amount
          no_limit_holdem data'.expected_version pl.applied).2 in
      record {
        sound = rw (round_kept, players_kept) s;
        ledger_agrees =
            get_hand_state_pot rows'
            ∙ ledger_moved
            ∙ ap (λ x. x +ℤ pl.res.amount)
                (sym (get_hand_state_pot rows) ∙ c.ledger_agrees ∙ c.sound.pot-eq-committed)
            ∙ sym moved
            ∙ sym s.pot-eq-committed
            ∙ ap (λ t. t.pot_amount) (sym round_kept);
      }

  Placed-version : rows'.round.state_version ≡ stored_version +ℤ pos 1
  unfolding mutate_round
  Placed-version =
      ap (λ t. t.state_version) round_kept
      ∙ ap (λ t. t.state_version)
          (apply_action-Accepted rows.round rows.players data'.player_id (some action) data'.amount
            no_limit_holdem data'.expected_version pl.applied).new_round
      ∙ ap (λ x. x +ℤ pos 1) (sym pl.current)

-- A bet that is placed keeps the rows of the hand consistent (the state of the engine stays sound,
-- and the ledger still accounts for the pot), keeps every chip on the table, and raises the version
-- in the database by one.
pub place_new_bet_lem :
    (ids : BetIds) (stored_version : ℤ) (rows : HandRows) (data' : BetRequest) (action : BetAction)
    {rows' : HandRows} {bet : Bet}
    → IsConsistent rows
    → place_new_bet ids stored_version rows data' action ≡ ok (rows', bet)
    → IsConsistent rows'
      × (chips_of rows' ≡ chips_of rows)
      × (rows'.round.state_version ≡ stored_version +ℤ pos 1)
place_new_bet_lem ids stored_version rows data' action c h =
    let pl = place_new_bet-Placed ids stored_version rows data' action h in
    (
      Placed-IsConsistent ids stored_version rows data' action pl c,
      Placed-chips ids stored_version rows data' action pl,
      Placed-version ids stored_version rows data' action pl,
    )

-- Of two bets that were read from the same rows, only one is placed: when the first one is, its
-- version is in the database, and the second one is an error.
pub place_new_bet_once :
    (ids ids' : BetIds) (stored_version : ℤ) (rows : HandRows) (data' data'' : BetRequest)
    (action action' : BetAction) {rows' rows'' : HandRows} {bet bet' : Bet}
    → place_new_bet ids stored_version rows data' action ≡ ok (rows', bet)
    → place_new_bet ids' rows'.round.state_version rows data'' action' ≢ ok (rows'', bet')
place_new_bet_once ids ids' stored_version rows data' data'' action action' {rows'} h h' =
    let pl = place_new_bet-Placed ids stored_version rows data' action h in
    let pl' = place_new_bet-Placed ids' _ rows data'' action' h' in
    later stored_version rows'.round.state_version
      (Placed-version ids stored_version rows data' action pl) (pl'.current ∙ sym pl.current)
  where
    later : (n m : ℤ) → m ≡ n +ℤ pos 1 → m ≢ n
    later n m e e' = grind int_laws

-- An accepted request leaves the rows alone, as a replay, or has placed its bet on them.
abbrev Outcome : BetIds → ℤ → HandRows → BetRequest → HandRows → Bet → Type 0
Outcome ids stored_version rows data' rows' bet =
    (rows' ≡ rows) ⊎ ((action : BetAction) × Placed ids stored_version rows data' action rows' bet)

replay_or_place-Outcome :
    (ids : BetIds) (stored_version : ℤ) (rows : HandRows) (data' : BetRequest) (action : BetAction)
    (existing : Option Bet) {rows' : HandRows} {bet : Bet}
    → replay_or_place ids stored_version (some rows) data' action existing ≡ ok (some rows', bet)
    → Outcome ids stored_version rows data' rows' bet
unfolding replay_or_place
replay_or_place-Outcome ids stored_version rows data' action (some existing) {rows'} {bet} h =
    elim (Bool-cases (same_payload data' action existing)) [
      | inl same ↦ inl (replayed (rw same at h))
      | inr other ↦ ground arith
    ]
  where
    replayed :
        ◌≡◌ {A = Result (Option HandRows × Bet)} (ok (some rows, existing)) (ok (some rows', bet))
        → rows' ≡ rows
    replayed e = cc
replay_or_place-Outcome ids stored_version rows data' action none {rows'} {bet} h =
    let (t, found, e) = >>=-eq-ok (place_new_bet ids stored_version rows data' action) _ h in
    inr
      (action, place_new_bet-Placed ids stored_version rows data' action (found ∙ same_result t e))
  where
    same_result :
        (t : HandRows × Bet)
        → ◌≡◌ {A = Result (Option HandRows × Bet)} (ok (some t.0, t.1)) (ok (some rows', bet))
        → ◌≡◌ {A = Result (HandRows × Bet)} (ok t) (ok (rows', bet))
    same_result (a, b) e = cc

pub place_bet-Outcome :
    (upper : String → String) (ids : BetIds) (stored_version : ℤ) (rows : HandRows)
    (data' : BetRequest) {rows' : HandRows} {bet : Bet}
    → place_bet upper ids stored_version (some rows) data' ≡ ok (some rows', bet)
    → Outcome ids stored_version rows data' rows' bet
unfolding place_bet
place_bet-Outcome upper ids stored_version rows data' h =
    let (action, _, h1) = >>=-eq-ok (action_or_raise (bet_action_of (upper data'.action))) _ h in
    replay_or_place-Outcome ids stored_version rows data' action _ h1

-- `place_bet` on consistent rows, replayed or placed, keeps them consistent and every chip on the table.
pub place_bet_lem :
    (upper : String → String) (ids : BetIds) (stored_version : ℤ) (rows : HandRows)
    (data' : BetRequest) {rows' : HandRows} {bet : Bet}
    → IsConsistent rows
    → place_bet upper ids stored_version (some rows) data' ≡ ok (some rows', bet)
    → IsConsistent rows' × (chips_of rows' ≡ chips_of rows)
place_bet_lem upper ids stored_version rows data' c h =
    elim (place_bet-Outcome upper ids stored_version rows data' h) [
      | inl same ↦ (subst IsConsistent (sym same) c, ap chips_of same)
      | inr (action, pl) ↦ (
        Placed-IsConsistent ids stored_version rows data' action pl c,
        Placed-chips ids stored_version rows data' action pl,
      )
    ]
