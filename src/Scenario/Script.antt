-- ===== src/Scenario/Script.antt =====
-- A script that is played action by action (services/game-service/app/domain/scenario_runner.py), as a
-- relation between the hands before and behind it.
use poker_room_backend.Prelude.{
  suc, ◌+◌, ◌≡◌, ◌⊎◌, refl, sym, ap, subst, ◌∙◌, String, none, some, List, [], ◌∷◌, arith, inl, inr,
  length,
}
use poker_room_backend.Domain.Constants.{bet_action_of}
use poker_room_backend.Domain.Exceptions.{DomainError, Result, ok, err}
use poker_room_backend.Domain.Models.{Round, RoundPlayer}
use poker_room_backend.Domain.Rules.{no_limit_holdem}
use poker_room_backend.Engine.ActionPipeline.{ApplyActionResult, apply_action}
use poker_room_backend.Engine.ActionPipeline.Conservation.{chips-apply_action}
use poker_room_backend.Engine.ActionPipeline.Invariant.{apply_action-IsSound}
use poker_room_backend.Scenario.{ScriptedAction, HandScenario, Running, after_action, run_actions}
use poker_room_backend.Scenario.Opening.{IsOnTable}

Result-cases :
    (r : Result (Round × List RoundPlayer × ApplyActionResult))
    → ((e : DomainError) × (r ≡ err e))
      ⊎ ((r' : Round) × (rps' : List RoundPlayer) × (res : ApplyActionResult) × (r
            ≡ ok (r', rps', res)))
Result-cases (err e) = inl (e, refl)
Result-cases (ok (r', rps', res)) = inr (r', rps', res, refl)

-- An action of the script: what the engine makes of it where it accepts it, else the hand as it was and
-- the error.
pub data ScriptStep (upper : String → String) (sa : ScriptedAction) (h : Running)
    : Running → Type 0 where
  accepted :
      {r' : Round} {rps' : List RoundPlayer} {res : ApplyActionResult}
      → apply_action h.game_round h.round_players sa.player_id
          (bet_action_of (upper sa.action))
          sa.amount
          no_limit_holdem
          none
        ≡ ok (r', rps', res)
      → ScriptStep upper sa h (record {
        game_round = r';
        round_players = rps';
        last_error = none;
        applied = suc h.applied;
      })
  refused :
      {e : DomainError}
      → apply_action h.game_round h.round_players sa.player_id
          (bet_action_of (upper sa.action))
          sa.amount
          no_limit_holdem
          none
        ≡ err e
      → ScriptStep upper sa h (record {
        game_round = h.game_round;
        round_players = h.round_players;
        last_error = some e;
        applied = suc h.applied;
      })

-- The actions of a script, one after the other.
pub data IsPlayed (upper : String → String) : List ScriptedAction → Running → Running → Type 0 where
  done : {h : Running} → IsPlayed upper [] h h
  next :
      {sa : ScriptedAction} {sas : List ScriptedAction} {h h' h'' : Running}
      → ScriptStep upper sa h h'
      → IsPlayed upper sas h' h''
      → IsPlayed upper (sa ∷ sas) h h''

after_action-ScriptStep :
    (upper : String → String) (sa : ScriptedAction) (h : Running)
    → ScriptStep upper sa h (
        after_action h (
          apply_action h.game_round h.round_players sa.player_id
            (bet_action_of (upper sa.action))
            sa.amount
            no_limit_holdem
            none))
after_action-ScriptStep upper sa h =
    elim (Result-cases (
      apply_action h.game_round h.round_players sa.player_id (bet_action_of (upper sa.action))
        sa.amount no_limit_holdem none)) [
          | inl (e, no') ↦
              subst (λ x. ScriptStep upper sa h (after_action h x)) (sym no')
                (ScriptStep.refused no')
          | inr (r', rps', res, yes') ↦
              subst (λ x. ScriptStep upper sa h (after_action h x)) (sym yes')
                (ScriptStep.accepted yes')
        ]

pub run_actions-IsPlayed :
    (upper : String → String) (sas : List ScriptedAction) (h : Running)
    → IsPlayed upper sas h (run_actions upper sas h)
unfolding run_actions
run_actions-IsPlayed upper [] h = IsPlayed.done
run_actions-IsPlayed upper (sa ∷ sas) h =
    IsPlayed.next (after_action-ScriptStep upper sa h) (run_actions-IsPlayed upper sas _)

-- An action, accepted or not, leaves the hand on the table.
ScriptStep-IsOnTable :
    {upper : String → String} (s : HandScenario) {sa : ScriptedAction} {h h' : Running}
    → ScriptStep upper sa h h'
    → IsOnTable s h
    → IsOnTable s h' × (h'.applied ≡ suc h.applied)
ScriptStep-IsOnTable {upper} s {sa} {h} (accepted yes') t = (
  (
    apply_action-IsSound h.game_round h.round_players sa.player_id (bet_action_of (upper sa.action))
        sa.amount no_limit_holdem none t.0 yes',
    (chips-apply_action h.game_round h.round_players sa.player_id (bet_action_of (upper sa.action))
          sa.amount no_limit_holdem none yes').0
        ∙ t.1,
  ),
  refl,
)
ScriptStep-IsOnTable s (refused no') t = (t, refl)

pub IsPlayed-IsOnTable :
    {upper : String → String} (s : HandScenario) {sas : List ScriptedAction} {h h' : Running}
    → IsPlayed upper sas h h'
    → IsOnTable s h
    → IsOnTable s h' × (h'.applied ≡ length sas + h.applied)
IsPlayed-IsOnTable s done t = (t, omega arith)
IsPlayed-IsOnTable s (next {sas} step rest) t =
    let (t', one) = ScriptStep-IsOnTable s step t in
    let (t'', more) = IsPlayed-IsOnTable s rest t' in
    (t'', more ∙ ap (λ n. length sas + n) one ∙ omega arith)
