-- ===== src/Engine/ActionPipeline/Termination.antt =====
-- A round of betting runs out: each action but a check takes a chip from a stack or a player from the
-- hand.
use poker_room_backend.Prelude.{
  ℕ, ◌+◌, ℤ, pos, ◌+ℤ◌, ◌≤ℤ◌, ◌≡◌, sym, subst, String, Bool, true, false, Option, some, none, List,
  [], ◌∷◌, map, arith, int_laws, inl, inr, Bool-cases, str_eq, find_first, sum_by, sum_by_nonneg,
  All, All-map, if◌then◌else◌,
}
use poker_room_backend.Domain.Constants.{BetAction}
use poker_room_backend.Domain.Exceptions.{ok}
use poker_room_backend.Domain.Models.{Round, RoundPlayer}
use poker_room_backend.Domain.Rules.{RulesProfile}
use poker_room_backend.Engine.Validator.{PlayerState, HandContext, ValidatedAction}
use poker_room_backend.Engine.Validator.Legal.{MayAct, IsLegal}
use poker_room_backend.Engine.ActionPipeline.{
  PlayerMutation, ApplyActionResult, player_state, apply_action, build_hand_context, mutate_player,
  mutate_players, player_mutation_of,
}
use poker_room_backend.Engine.ActionPipeline.Inversion.{apply_action-Accepted}
use poker_room_backend.Engine.ActionPipeline.Conservation.{Found, same_player, found}
use poker_room_backend.Engine.ActionPipeline.Invariant.{
  IsSound, IsSoundPlayer, apply_action-IsSound,
}

abbrev pub is_check : BetAction → Bool
is_check BetAction.check = true
is_check _ = false

-- 1 for an action that uses something up.
abbrev pub cost : BetAction → ℕ
cost a = if is_check a then 0 else 1

-- What a player can still use up: the chips of the stack, and the place in the hand.
abbrev pub reserve : RoundPlayer → ℤ
reserve rp = rp.stack_remaining +ℤ (if rp.is_active_in_hand then pos 1 else pos 0)

abbrev pub reserves : List RoundPlayer → ℤ
reserves = sum_by reserve

sum_by-mutate_players_le :
    (f : RoundPlayer → ℤ) (d : ℤ) (P : RoundPlayer → Type 0) (pm : PlayerMutation)
    (rps : List RoundPlayer) (p : PlayerState)
    → ((rp : RoundPlayer) → player_state rp ≡ p → P rp → f (mutate_player pm rp) +ℤ d ≤ℤ f rp)
    → Found pm.player_id rps p
    → All P rps
    → sum_by f (mutate_players pm rps) +ℤ d ≤ℤ sum_by f rps
unfolding mutate_players
sum_by-mutate_players_le f d P pm [] p less found h = absurd (ground arith)
sum_by-mutate_players_le f d P pm (rp ∷ rps) p less found h =
    elim (Bool-cases (str_eq rp.player_id pm.player_id)) [
      | inl it ↦ rw it (
          front (f (mutate_player pm rp)) (sum_by f rps) (f rp) (
            less rp
              (same_player
                (find_first (λ q. str_eq q.player_id pm.player_id) (map player_state rps)) it found)
              h.0))
      | inr other ↦ rw other (
          back (f rp) (sum_by f (mutate_players pm rps)) (sum_by f rps)
            (sum_by-mutate_players_le f d P pm rps p less (rw other at found) h.1))
    ]
  where
    front : (a s b : ℤ) → a +ℤ d ≤ℤ b → (a +ℤ s) +ℤ d ≤ℤ b +ℤ s
    front a s b h = omega int_laws

    back : (b s t : ℤ) → s +ℤ d ≤ℤ t → (b +ℤ s) +ℤ d ≤ℤ b +ℤ t
    back b s t h = omega int_laws

actor_pays :
    (ctx : HandContext) (player_id : String) (rp : RoundPlayer) (action : Option BetAction)
    (amount : ℤ) (v : ValidatedAction)
    → MayAct ctx player_id (player_state rp)
    → IsLegal ctx (player_state rp) action amount v
    → IsSoundPlayer ctx.current_highest_bet rp
    → reserve (mutate_player (player_mutation_of player_id v) rp) +ℤ pos (cost v.action)
      ≤ℤ reserve rp
unfolding mutate_player player_mutation_of
actor_pays ctx player_id rp none amount v may legal h = absurd legal
actor_pays ctx player_id rp (some BetAction.fold) amount v may legal h = grind int_laws
actor_pays ctx player_id rp (some BetAction.check) amount v may legal h = grind int_laws
actor_pays ctx player_id rp (some BetAction.call) amount v may legal h = grind int_laws
actor_pays ctx player_id rp (some BetAction.bet) amount v may legal h = grind int_laws
actor_pays ctx player_id rp (some BetAction.raise) amount v may legal h = grind int_laws
actor_pays ctx player_id rp (some BetAction.all_in) amount v may legal h = grind int_laws

apply_action-reserves :
    (r : Round) (rps : List RoundPlayer) (player_id : String) (action : Option BetAction)
    (amount : ℤ) (rules : RulesProfile) (expected_version : Option ℤ) {r' : Round}
    {rps' : List RoundPlayer} {res : ApplyActionResult}
    → IsSound r rps
    → apply_action r rps player_id action amount rules expected_version ≡ ok (r', rps', res)
    → reserves rps' +ℤ pos (cost res.action) ≤ℤ reserves rps
unfolding build_hand_context
apply_action-reserves r rps player_id action amount rules expected_version s h =
    let a = apply_action-Accepted r rps player_id action amount rules expected_version h in
    rw (a.same_action, a.new_players)
      (sum_by-mutate_players_le reserve (pos (cost a.v.action))
        (IsSoundPlayer r.current_highest_bet) (player_mutation_of player_id a.v) rps a.p
        (λ rp e sp.
          actor_pays (build_hand_context r rps) player_id rp action amount a.v
            (subst (λ q. MayAct (build_hand_context r rps) player_id q) (sym e) a.may_act)
            (subst (λ q. IsLegal (build_hand_context r rps) q action amount a.v) (sym e) a.legal)
            sp)
        (found r rps player_id action amount expected_version a) s.players)

-- Accepted actions one after the other, with the number of those that are no check.
pub data Betting (r : Round) (rps : List RoundPlayer) : Round → List RoundPlayer → ℕ → Type 0 where
  opened : Betting r rps r rps 0
  acted :
      (player_id : String) (action : Option BetAction) (amount : ℤ) (rules : RulesProfile)
      (expected_version : Option ℤ) {r' r'' : Round} {rps' rps'' : List RoundPlayer} {n : ℕ}
      {res : ApplyActionResult}
      → Betting r rps r' rps' n
      → apply_action r' rps' player_id action amount rules expected_version ≡ ok (r'', rps'', res)
      → Betting r rps r'' rps'' (n + cost res.action)

Betting-reserves :
    {r : Round} {rps : List RoundPlayer} {r' : Round} {rps' : List RoundPlayer} {n : ℕ}
    → IsSound r rps
    → Betting r rps r' rps' n
    → IsSound r' rps' × (reserves rps' +ℤ pos n ≤ℤ reserves rps)
Betting-reserves {rps = rps} s opened = (s, start (reserves rps))
  where
    start : (a : ℤ) → a +ℤ pos 0 ≤ℤ a
    start a = omega int_laws
Betting-reserves {rps = rps} s
      (acted player_id action amount rules expected_version {r'} {r''} {rps'} {rps''} {n} {res}
        before h) =
    let (s', le) = Betting-reserves s before in
    (
      apply_action-IsSound r' rps' player_id action amount rules expected_version s' h,
      further (reserves rps'') (reserves rps') (reserves rps) n (cost res.action)
          (apply_action-reserves r' rps' player_id action amount rules expected_version s' h) le,
    )
  where
    further : (c b a : ℤ) (n m : ℕ) → c +ℤ pos m ≤ℤ b → b +ℤ pos n ≤ℤ a → c +ℤ pos (n + m) ≤ℤ a
    further c b a n m h k = omega int_laws

-- From a sound state, no run of accepted actions has more actions that are no check than there are chips
-- in the stacks and players in the hand.
pub Betting_bound :
    {r : Round} {rps : List RoundPlayer} {r' : Round} {rps' : List RoundPlayer} {n : ℕ}
    → IsSound r rps
    → Betting r rps r' rps' n
    → pos n ≤ℤ reserves rps
Betting_bound {rps = rps} {rps' = rps'} {n = n} s b =
    let (s', le) = Betting-reserves s b in
    at_most (reserves rps') (reserves rps) n
      (sum_by_nonneg reserve rps' (All-map (λ rp sp. nonneg rp sp.stack_nonneg) rps' s'.players)) le
  where
    at_most : (a b : ℤ) (n : ℕ) → pos 0 ≤ℤ a → a +ℤ pos n ≤ℤ b → pos n ≤ℤ b
    at_most a b n h k = omega int_laws

    nonneg : (rp : RoundPlayer) → pos 0 ≤ℤ rp.stack_remaining → pos 0 ≤ℤ reserve rp
    nonneg rp h = elim (Bool-cases rp.is_active_in_hand) [
      | inl yes' ↦ rw yes' (more rp.stack_remaining 1 h)
      | inr no' ↦ rw no' (more rp.stack_remaining 0 h)
    ]
      where
        more : (a : ℤ) (n : ℕ) → pos 0 ≤ℤ a → pos 0 ≤ℤ a +ℤ pos n
        more a n h = omega int_laws
