-- ===== src/Engine/ActionPipeline/Inversion.antt =====
-- What an accepted action has done, in terms of the legal bets.
use poker_room_backend.Prelude.{ℤ, ◌≡◌, String, Option, none, some, List, false, arith}
use poker_room_backend.Domain.Constants.{BetAction}
use poker_room_backend.Domain.Exceptions.{Result, ok, ◌>>=◌, >>=-eq-ok, raise_if-eq-ok}
use poker_room_backend.Domain.Models.{Round, RoundPlayer}
use poker_room_backend.Domain.Rules.{RulesProfile}
use poker_room_backend.Engine.Validator.{
  PlayerState, HandContext, ValidatedAction, get_player, validate_bet, player_or_raise,
}
use poker_room_backend.Engine.Validator.Legal.{MayAct, IsLegal, validate_bet_iff}
use poker_room_backend.Engine.ActionPipeline.{
  HandTransition, ApplyActionResult, apply_action, apply_transition, transition_hand_state,
  transition_of, build_hand_context, is_stale, commit_delta, result_of, mutate_round,
  mutate_players, player_mutation_of, round_mutation_of, turn_after,
}

-- An accepted action of player `p`, with the outcome `v` of its validation.
pub record Accepted (r : Round) (rps : List RoundPlayer) (player_id : String)
    (action : Option BetAction) (amount : ℤ) (expected_version : Option ℤ) (r' : Round)
    (rps' : List RoundPlayer) (res : ApplyActionResult) : Type 0 where
  pub p : PlayerState
  pub v : ValidatedAction
  pub fresh : is_stale expected_version r ≡ false
  pub may_act : MayAct (build_hand_context r rps) player_id p
  pub legal : IsLegal (build_hand_context r rps) p action amount v
  pub new_round :
      r'
      ≡ mutate_round
          (round_mutation_of
            (build_hand_context r rps)
            p
            v
            (turn_after (build_hand_context r rps) player_id p v r.last_aggressor_seat))
          r
  pub new_players : rps' ≡ mutate_players (player_mutation_of player_id v) rps
  pub same_action : res.action ≡ v.action
  pub same_amount : res.amount ≡ v.amount

transition_inversion :
    (ctx : HandContext) (player_id : String) (action : Option BetAction) (amount : ℤ)
    (seat : Option ℤ) (rules : RulesProfile) {t : HandTransition}
    → transition_hand_state ctx player_id action amount seat rules ≡ ok t
    → (p : PlayerState) × (v : ValidatedAction) × MayAct ctx player_id p
      × IsLegal ctx p action amount v
      × (t ≡ transition_of ctx player_id p v seat)
unfolding transition_hand_state
transition_inversion ctx player_id action amount seat rules {t} h =
    let (v, valid, rest) =
      >>=-eq-ok (validate_bet ctx player_id action amount rules)
        (λ w. player_or_raise (get_player ctx player_id) >>= λ q.
          ok (transition_of ctx player_id q w seat))
        h in
    let (p, may, legal) = (validate_bet_iff ctx player_id action amount rules v).0 valid in
    let reached : ok (transition_of ctx player_id p v seat) ≡ ok t = rw may.found at rest in
    (p, v, may, legal, cc)

transition-Accepted :
    (r : Round) (rps : List RoundPlayer) (player_id : String) (action : Option BetAction)
    (amount : ℤ) (expected_version : Option ℤ) (t : HandTransition) (p : PlayerState)
    (v : ValidatedAction) {r' : Round} {rps' : List RoundPlayer} {res : ApplyActionResult}
    → is_stale expected_version r ≡ false
    → MayAct (build_hand_context r rps) player_id p
    → IsLegal (build_hand_context r rps) p action amount v
    → t ≡ transition_of (build_hand_context r rps) player_id p v r.last_aggressor_seat
    → ◌≡◌ {A = Result (Round × List RoundPlayer × ApplyActionResult)}
        (ok ((apply_transition r rps t).0, (apply_transition r rps t).1, result_of t))
        (ok (r', rps', res))
    → Accepted r rps player_id action amount expected_version r' rps' res
unfolding apply_transition
transition-Accepted r rps player_id action amount expected_version t p v fresh may legal e h =
    record {
      p = p;
      v = v;
      fresh = fresh;
      may_act = may;
      legal = legal;
      new_round = cc;
      new_players = cc;
      same_action = cc;
      same_amount = cc;
    }

-- Every action that `apply_action` accepts is a legal bet of a player who may act.
pub apply_action-Accepted :
    (r : Round) (rps : List RoundPlayer) (player_id : String) (action : Option BetAction)
    (amount : ℤ) (rules : RulesProfile) (expected_version : Option ℤ) {r' : Round}
    {rps' : List RoundPlayer} {res : ApplyActionResult}
    → apply_action r rps player_id action amount rules expected_version ≡ ok (r', rps', res)
    → Accepted r rps player_id action amount expected_version r' rps' res
unfolding apply_action
apply_action-Accepted r rps player_id action amount rules expected_version h =
    let ctx = build_hand_context r rps in
    let (fresh, h1) = raise_if-eq-ok (is_stale expected_version r) _ _ h in
    let (t, moved, h2) =
      >>=-eq-ok (transition_hand_state ctx player_id action amount r.last_aggressor_seat rules) _
        h1 in
    let (p, v, may, legal, e) =
      transition_inversion ctx player_id action amount r.last_aggressor_seat rules moved in
    transition-Accepted r rps player_id action amount expected_version t p v fresh may legal e h2

-- The chips that go to the pot are those that the player commits.
pub commit_delta-eq-amount :
    (ctx : HandContext) (p : PlayerState) (action : Option BetAction) (amount : ℤ)
    (v : ValidatedAction)
    → IsLegal ctx p action amount v
    → commit_delta v ≡ v.amount
commit_delta-eq-amount ctx p none amount v h = absurd h
commit_delta-eq-amount ctx p (some BetAction.fold) amount v h = ground arith
commit_delta-eq-amount ctx p (some BetAction.check) amount v h = ground arith
commit_delta-eq-amount ctx p (some BetAction.call) amount v h = ground arith
commit_delta-eq-amount ctx p (some BetAction.bet) amount v h = ground arith
commit_delta-eq-amount ctx p (some BetAction.raise) amount v h = ground arith
commit_delta-eq-amount ctx p (some BetAction.all_in) amount v h = ground arith
