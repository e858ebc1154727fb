-- ===== src/Engine/Validator/Legal.antt =====
-- An independent description of the legal bets, and that `validate_bet` decides it.
use poker_room_backend.Prelude.{
  ℤ, pos, ◌+ℤ◌, ◌-ℤ◌, ◌≤ℤ◌, ◌<ℤ◌, ◌≡◌, ◌↔◌, ◌⊎◌, inl, inr, String, true, false, Option, none, some,
  int_laws, -ℤ_parts, +ℤ_parts, eq_of_parts, arith, eq_iff, Option-cases,
}
use poker_room_backend.Domain.Constants.{RoundStatus, BetAction}
use poker_room_backend.Domain.Exceptions.{ok, >>=-eq-ok}
use poker_room_backend.Domain.Rules.{RulesProfile}
use poker_room_backend.Engine.Validator.{
  PlayerState, HandContext, ValidatedAction, get_player, call_amount, validate_action, may_act,
  validate_bet,
}

-- The player with this id may act now.
pub record MayAct (ctx : HandContext) (player_id : String) (p : PlayerState) : Type 0 where
  pub live : ctx.status ≡ RoundStatus.active
  pub opened : ctx.is_action_closed ≡ false
  pub found : get_player ctx player_id ≡ some p
  pub in_hand : p.is_active_in_hand ≡ true
  pub not_folded : p.has_folded ≡ false
  pub not_all_in : p.is_all_in ≡ false
  pub in_turn : (ctx.acting_player_id ≡ none) ⊎ (ctx.acting_player_id ≡ some player_id)

abbrev pub outcome : BetAction → ℤ → ValidatedAction
outcome a x = record { action = a; amount = x }

-- `put` chips of `p` as `a`, or as an all-in if they are the whole stack.
abbrev pub Puts : PlayerState → BetAction → ℤ → ValidatedAction → Type 0
Puts p a put v =
    ((put ≡ p.stack_remaining) × (v ≡ outcome BetAction.all_in put))
    ⊎ ((put <ℤ p.stack_remaining) × (v ≡ outcome a put))

-- The bets of no-limit hold'em, action by action.
abbrev pub IsLegal : HandContext → PlayerState → Option BetAction → ℤ → ValidatedAction → Type 0
IsLegal ctx p none amount v = ⊥
IsLegal ctx p (some BetAction.fold) amount v = v ≡ outcome BetAction.fold (pos 0)
IsLegal ctx p (some BetAction.check) amount v =
    (ctx.current_highest_bet ≤ℤ p.committed_this_street) × (v ≡ outcome BetAction.check (pos 0))
IsLegal ctx p (some BetAction.call) amount v =
    (p.committed_this_street <ℤ ctx.current_highest_bet)
    × (((p.committed_this_street +ℤ p.stack_remaining ≤ℤ ctx.current_highest_bet)
          × (v ≡ outcome BetAction.all_in p.stack_remaining))
        ⊎ ((ctx.current_highest_bet <ℤ p.committed_this_street +ℤ p.stack_remaining)
            × (v ≡ outcome BetAction.call (ctx.current_highest_bet -ℤ p.committed_this_street))))
IsLegal ctx p (some BetAction.bet) amount v =
    (ctx.current_highest_bet ≤ℤ pos 0)
    × (pos 0 <ℤ amount)
    × ((ctx.minimum_raise_amount ≤ℤ amount) ⊎ (amount ≡ p.stack_remaining))
    × Puts p BetAction.bet amount v
IsLegal ctx p (some BetAction.raise) amount v =
    (¬ (ctx.current_highest_bet ≡ pos 0))
    × (pos 0 <ℤ amount)
    × (p.committed_this_street <ℤ amount)
    × ((ctx.current_highest_bet +ℤ ctx.minimum_raise_amount ≤ℤ amount)
        ⊎ (amount -ℤ p.committed_this_street ≡ p.stack_remaining))
    × Puts p BetAction.raise (amount -ℤ p.committed_this_street) v
IsLegal ctx p (some BetAction.all_in) amount v =
    (pos 0 <ℤ p.stack_remaining) × (v ≡ outcome BetAction.all_in p.stack_remaining)

may_act_sound :
    (ctx : HandContext) (player_id : String) (p : PlayerState)
    → may_act ctx player_id ≡ ok p
    → MayAct ctx player_id p
unfolding may_act
may_act_sound ctx player_id p h = elim (Option-cases (get_player ctx player_id)) [
  | inl missing ↦ ground arith
  | inr (q, e) ↦ elim (Option-cases ctx.acting_player_id) [
    | inl nobody ↦ ground arith
    | inr (a, turn) ↦ ground (arith, eq_iff a player_id)
  ]
]

may_act_complete :
    (ctx : HandContext) (player_id : String) (p : PlayerState)
    → MayAct ctx player_id p
    → may_act ctx player_id ≡ ok p
unfolding may_act
may_act_complete ctx player_id p h = grind (arith, eq_iff)

validate_action_sound :
    (ctx : HandContext) (p : PlayerState) (action : Option BetAction) (amount : ℤ)
    (v : ValidatedAction)
    → validate_action ctx p action amount ≡ ok v
    → IsLegal ctx p action amount v
unfolding validate_action call_amount
validate_action_sound ctx p none amount v h = ground arith
validate_action_sound ctx p (some BetAction.fold) amount v h = ground arith
validate_action_sound ctx p (some BetAction.check) amount v h = grind int_laws
validate_action_sound ctx p (some BetAction.call) amount v h = grind int_laws
validate_action_sound ctx p (some BetAction.bet) amount v h =
    ground (arith, eq_of_parts amount p.stack_remaining)
validate_action_sound ctx p (some BetAction.raise) amount v h = ground (
  arith,
  -ℤ_parts amount p.committed_this_street,
  -ℤ_parts amount ctx.current_highest_bet,
  +ℤ_parts ctx.current_highest_bet ctx.minimum_raise_amount,
  eq_of_parts (amount -ℤ p.committed_this_street) p.stack_remaining,
)
validate_action_sound ctx p (some BetAction.all_in) amount v h = grind int_laws

validate_action_complete :
    (ctx : HandContext) (p : PlayerState) (action : Option BetAction) (amount : ℤ)
    (v : ValidatedAction)
    → IsLegal ctx p action amount v
    → validate_action ctx p action amount ≡ ok v
unfolding validate_action call_amount
validate_action_complete ctx p none amount v h = absurd h
validate_action_complete ctx p (some BetAction.fold) amount v h = ground arith
validate_action_complete ctx p (some BetAction.check) amount v h = grind int_laws
validate_action_complete ctx p (some BetAction.call) amount v h = grind int_laws
validate_action_complete ctx p (some BetAction.bet) amount v h = grind int_laws
validate_action_complete ctx p (some BetAction.raise) amount v h = grind int_laws
validate_action_complete ctx p (some BetAction.all_in) amount v h = grind int_laws

-- `validate_bet` accepts a bet, and as this outcome, exactly when the player may act and the bet is
-- legal with that outcome.
pub validate_bet_iff :
    (ctx : HandContext) (player_id : String) (action : Option BetAction) (amount : ℤ)
    (rules : RulesProfile) (v : ValidatedAction)
    → (validate_bet ctx player_id action amount rules ≡ ok v)
      ↔ ((p : PlayerState) × MayAct ctx player_id p × IsLegal ctx p action amount v)
unfolding validate_bet
validate_bet_iff ctx player_id action amount rules v = (
  λ h.
      let (p, acting, legal) =
        >>=-eq-ok (may_act ctx player_id) (λ q. validate_action ctx q action amount) h in
      (p, may_act_sound ctx player_id p acting, validate_action_sound ctx p action amount v legal),
  λ h.
      rw (may_act_complete ctx player_id h.0 h.1)
        (validate_action_complete ctx h.0 action amount v h.2),
)
