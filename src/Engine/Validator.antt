-- ===== src/Engine/Validator.antt =====
-- services/game-service/app/domain/engine/validator.py: which bets are legal. The requested action
-- is the member of `BetAction` that its upper-cased string spells, `none` for any other string.
pub mod Legal
use poker_room_backend.Prelude.{
  ℤ, pos, ◌-ℤ◌, String, Bool, false, not, ◌&&◌, Option, none, some, List, str_eq, ltb_ℤ, leb_ℤ,
  eqb_ℤ, min_ℤ, max_ℤ, if◌then◌else◌, find_first,
}
use poker_room_backend.Domain.Constants.{RoundStatus, Street, BetAction, round_is_active}
use poker_room_backend.Domain.Exceptions.{DomainError, Result, ok, err, ◌>>=◌, ◌>>◌, raise_if}
use poker_room_backend.Domain.Rules.{RulesProfile}

pub record PlayerState : Type 0 where
  pub player_id : String
  pub seat_number : ℤ
  pub stack_remaining : ℤ
  pub committed_this_street : ℤ
  pub committed_this_hand : ℤ
  pub has_folded : Bool
  pub is_all_in : Bool
  pub is_active_in_hand : Bool

pub record HandContext : Type 0 where
  pub round_id : String
  pub status : RoundStatus
  pub street : Street
  pub acting_player_id : Option String
  pub current_highest_bet : ℤ
  pub minimum_raise_amount : ℤ
  pub is_action_closed : Bool
  pub players : List PlayerState

pub record ValidatedAction : Type 0 where
  pub action : BetAction
  pub amount : ℤ

-- `HandContext.get_player`
unfoldable pub get_player : HandContext → String → Option PlayerState
get_player ctx player_id = find_first (λ p. str_eq p.player_id player_id) ctx.players

abbrev pub validated : BetAction → ℤ → Result ValidatedAction
validated action amount = ok (record { action = action; amount = amount })

unfoldable pub call_amount : HandContext → PlayerState → ℤ
call_amount ctx p = max_ℤ (pos 0) (ctx.current_highest_bet -ℤ p.committed_this_street)

unfoldable pub validate_call : HandContext → PlayerState → Result ValidatedAction
validate_call ctx p =
    let to_call = call_amount ctx p in
    let effective = min_ℤ to_call p.stack_remaining in
    raise_if (eqb_ℤ to_call (pos 0)) DomainError.call_not_allowed
    >> (if eqb_ℤ effective p.stack_remaining
        then validated BetAction.all_in effective
        else validated BetAction.call effective)

unfoldable pub validate_opening_bet : HandContext → PlayerState → ℤ → Result ValidatedAction
validate_opening_bet ctx p amount = do
  raise_if (ltb_ℤ (pos 0) ctx.current_highest_bet) DomainError.bet_not_allowed
  raise_if (leb_ℤ amount (pos 0)) DomainError.invalid_amount
  raise_if (ltb_ℤ p.stack_remaining amount) DomainError.amount_exceeds_stack
  raise_if (ltb_ℤ amount ctx.minimum_raise_amount && not (eqb_ℤ amount p.stack_remaining))
      DomainError.raise_below_minimum
  if eqb_ℤ amount p.stack_remaining
      then validated BetAction.all_in amount
      else validated BetAction.bet amount

-- `amount` is the player's new total on this street.
unfoldable pub validate_raise : HandContext → PlayerState → ℤ → Result ValidatedAction
validate_raise ctx p total = do
  raise_if (eqb_ℤ ctx.current_highest_bet (pos 0)) DomainError.raise_not_allowed
  raise_if (leb_ℤ total (pos 0)) DomainError.invalid_amount
  let additional = total -ℤ p.committed_this_street
  raise_if (leb_ℤ additional (pos 0)) DomainError.invalid_amount
  raise_if (ltb_ℤ p.stack_remaining additional) DomainError.amount_exceeds_stack
  let increment = total -ℤ ctx.current_highest_bet
  raise_if (ltb_ℤ increment ctx.minimum_raise_amount && not (eqb_ℤ additional p.stack_remaining))
      DomainError.raise_below_minimum
  if eqb_ℤ additional p.stack_remaining
      then validated BetAction.all_in additional
      else validated BetAction.raise additional

-- The tests of one action, once the player may act.
unfoldable pub validate_action :
    HandContext → PlayerState → Option BetAction → ℤ → Result ValidatedAction
unfolding validate_call validate_opening_bet validate_raise
validate_action ctx p none amount = err DomainError.illegal_action
validate_action ctx p (some BetAction.fold) amount = validated BetAction.fold (pos 0)
validate_action ctx p (some BetAction.check) amount =
    raise_if (ltb_ℤ (pos 0) (call_amount ctx p)) DomainError.check_not_allowed
    >> validated BetAction.check (pos 0)
validate_action ctx p (some BetAction.call) amount = validate_call ctx p
validate_action ctx p (some BetAction.bet) amount = validate_opening_bet ctx p amount
validate_action ctx p (some BetAction.raise) amount = validate_raise ctx p amount
validate_action ctx p (some BetAction.all_in) amount =
    raise_if (leb_ℤ p.stack_remaining (pos 0)) DomainError.player_already_all_in
    >> validated BetAction.all_in p.stack_remaining

abbrev pub player_or_raise : Option PlayerState → Result PlayerState
player_or_raise none = err DomainError.player_not_in_hand
player_or_raise (some p) = ok p

-- `acting_player_id is not None and acting_player_id != player_id`
abbrev pub is_out_of_turn : Option String → String → Bool
is_out_of_turn none player_id = false
is_out_of_turn (some acting) player_id = not (str_eq acting player_id)

-- The player who may act now.
unfoldable pub may_act : HandContext → String → Result PlayerState
may_act ctx player_id = do
  raise_if (not (round_is_active ctx.status)) DomainError.round_not_active
  raise_if ctx.is_action_closed DomainError.action_closed
  p ← player_or_raise (get_player ctx player_id)
  raise_if (not p.is_active_in_hand) DomainError.player_not_in_hand
  raise_if p.has_folded DomainError.player_already_folded
  raise_if p.is_all_in DomainError.player_already_all_in
  raise_if (is_out_of_turn ctx.acting_player_id player_id) DomainError.not_your_turn
  ok p

-- `rules` is read by nothing.
unfoldable pub validate_bet :
    HandContext → String → Option BetAction → ℤ → RulesProfile → Result ValidatedAction
unfolding may_act validate_action
validate_bet ctx player_id action amount rules = do
  p ← may_act ctx player_id
  validate_action ctx p action amount
