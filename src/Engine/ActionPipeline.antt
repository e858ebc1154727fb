-- ===== src/Engine/ActionPipeline.antt =====
-- services/game-service/app/domain/engine/action_pipeline.py: one action of one player, from the
-- stored round and players to the changed ones.
pub mod Inversion
pub mod Conservation
pub mod Invariant
pub mod Termination
use poker_room_backend.Prelude.{
  ℤ, pos, ◌+ℤ◌, ◌-ℤ◌, String, Bool, true, false, not, Option, none, some, List, [], ◌∷◌, map,
  str_eq, ltb_ℤ, eqb_ℤ, if◌then◌else◌, or_else,
}
use poker_room_backend.Domain.Constants.{BetAction, eqb_action}
use poker_room_backend.Domain.Exceptions.{DomainError, Result, ok, ◌>>=◌, ◌>>◌, raise_if}
use poker_room_backend.Domain.Models.{Round, RoundPlayer}
use poker_room_backend.Domain.Rules.{RulesProfile}
use poker_room_backend.Engine.Validator.{
  PlayerState, HandContext, ValidatedAction, get_player, player_or_raise, validate_bet,
}
use poker_room_backend.Engine.TurnEngine.{ActionSeat, NextActorResult, next_to_act}

pub record PlayerMutation : Type 0 where
  pub player_id : String
  pub stack_delta : ℤ
  pub street_commit_delta : ℤ
  pub hand_commit_delta : ℤ
  pub should_fold : Bool
  pub should_all_in : Bool

pub record RoundMutation : Type 0 where
  pub pot_delta : ℤ
  pub new_highest_bet : Option ℤ
  pub new_min_raise : Option ℤ
  pub new_acting_player_id : Option String
  pub new_last_aggressor_seat : Option ℤ
  pub is_action_closed : Bool

pub record HandTransition : Type 0 where
  pub action : BetAction
  pub amount : ℤ
  pub is_round_closed : Bool
  pub next_player_id : Option String
  pub player_mutation : PlayerMutation
  pub round_mutation : RoundMutation

pub record ApplyActionResult : Type 0 where
  pub action : BetAction
  pub amount : ℤ
  pub is_round_closed : Bool
  pub next_player_id : Option String

-- `effective_action in (CALL, BET, RAISE, ALL_IN)`
abbrev pub commits : BetAction → Bool
commits BetAction.fold = false
commits BetAction.check = false
commits _ = true

-- `effective_action in (BET, RAISE, ALL_IN)`
abbrev pub is_aggressive : BetAction → Bool
is_aggressive BetAction.bet = true
is_aggressive BetAction.raise = true
is_aggressive BetAction.all_in = true
is_aggressive _ = false

abbrev pub is_fold : BetAction → Bool
is_fold = eqb_action BetAction.fold

abbrev pub is_all_in_action : BetAction → Bool
is_all_in_action = eqb_action BetAction.all_in

abbrev pub commit_delta : ValidatedAction → ℤ
commit_delta v = if commits v.action then v.amount else pos 0

unfoldable pub player_mutation_of : String → ValidatedAction → PlayerMutation
player_mutation_of player_id v = record {
  player_id = player_id;
  stack_delta = if commits v.action then pos 0 -ℤ v.amount else pos 0;
  street_commit_delta = commit_delta v;
  hand_commit_delta = commit_delta v;
  should_fold = is_fold v.action;
  should_all_in = is_all_in_action v.action;
}

abbrev pub post_committed : PlayerState → ValidatedAction → ℤ
post_committed player v = player.committed_this_street +ℤ commit_delta v

-- Only a bet, a raise or an all-in above the highest bet moves it.
unfoldable pub highest_after : HandContext → PlayerState → ValidatedAction → Option ℤ
highest_after ctx player v =
    if is_aggressive v.action
    then (if ltb_ℤ ctx.current_highest_bet (post_committed player v)
        then some (post_committed player v)
        else none)
    else none

unfoldable pub min_raise_after : HandContext → PlayerState → ValidatedAction → Option ℤ
min_raise_after ctx player v =
    let increment = post_committed player v -ℤ ctx.current_highest_bet in
    if is_aggressive v.action
    then (if ltb_ℤ ctx.current_highest_bet (post_committed player v)
        then (if ltb_ℤ ctx.minimum_raise_amount increment then some increment else none)
        else none)
    else none

abbrev pub aggressor_after : PlayerState → ValidatedAction → Option ℤ
aggressor_after player v = if is_aggressive v.action then some player.seat_number else none

-- The seat of `p` for the turn engine, after the action of the player with this id.
unfoldable pub action_seat : String → ValidatedAction → PlayerState → ActionSeat
action_seat player_id v p =
    let is_actor = str_eq p.player_id player_id in
    record {
      player_id = p.player_id;
      seat_number = p.seat_number;
      has_folded =
          if is_actor then (if is_fold v.action then true else p.has_folded) else p.has_folded;
      is_all_in =
          if is_actor
          then (if is_all_in_action v.action then true else p.is_all_in)
          else p.is_all_in;
      is_active_in_hand =
          if is_actor
          then (if is_fold v.action then false else p.is_active_in_hand)
          else p.is_active_in_hand;
      committed_this_street =
          if is_actor then p.committed_this_street +ℤ commit_delta v else p.committed_this_street;
    }

-- `new if new is not None else old`, on optional seats
abbrev pub first_some : Option ℤ → Option ℤ → Option ℤ
first_some (some a) b = some a
first_some none b = b

-- Who acts after the action.
unfoldable pub turn_after :
    HandContext → String → PlayerState → ValidatedAction → Option ℤ → NextActorResult
turn_after ctx player_id player v last_aggressor_seat =
    next_to_act (map (action_seat player_id v) ctx.players) player.seat_number
      (first_some (aggressor_after player v) last_aggressor_seat)
      (or_else (highest_after ctx player v) ctx.current_highest_bet)

unfoldable pub round_mutation_of :
    HandContext → PlayerState → ValidatedAction → NextActorResult → RoundMutation
round_mutation_of ctx player v nta = record {
  pot_delta = v.amount;
  new_highest_bet = highest_after ctx player v;
  new_min_raise = min_raise_after ctx player v;
  new_acting_player_id = if nta.is_round_closed then none else nta.player_id;
  new_last_aggressor_seat = aggressor_after player v;
  is_action_closed = nta.is_round_closed;
}

abbrev pub transition_of :
    HandContext → String → PlayerState → ValidatedAction → Option ℤ → HandTransition
transition_of ctx player_id player v last_aggressor_seat =
    let nta = turn_after ctx player_id player v last_aggressor_seat in
    record {
      action = v.action;
      amount = v.amount;
      is_round_closed = nta.is_round_closed;
      next_player_id = nta.player_id;
      player_mutation = player_mutation_of player_id v;
      round_mutation = round_mutation_of ctx player v nta;
    }

unfoldable pub transition_hand_state :
    HandContext → String → Option BetAction → ℤ → Option ℤ → RulesProfile → Result HandTransition
transition_hand_state ctx player_id action amount last_aggressor_seat rules = do
  v ← validate_bet ctx player_id action amount rules
  player ← player_or_raise (get_player ctx player_id)
  ok (transition_of ctx player_id player v last_aggressor_seat)

abbrev pub player_state : RoundPlayer → PlayerState
player_state rp = record {
  player_id = rp.player_id;
  seat_number = rp.seat_number;
  stack_remaining = rp.stack_remaining;
  committed_this_street = rp.committed_this_street;
  committed_this_hand = rp.committed_this_hand;
  has_folded = rp.has_folded;
  is_all_in = rp.is_all_in;
  is_active_in_hand = rp.is_active_in_hand;
}

-- `_build_hand_context`
unfoldable pub build_hand_context : Round → List RoundPlayer → HandContext
build_hand_context r rps = record {
  round_id = r.round_id;
  status = r.status;
  street = r.street;
  acting_player_id = r.acting_player_id;
  current_highest_bet = r.current_highest_bet;
  minimum_raise_amount = r.minimum_raise_amount;
  is_action_closed = r.is_action_closed;
  players = map player_state rps;
}

unfoldable pub mutate_player : PlayerMutation → RoundPlayer → RoundPlayer
mutate_player pm rp = record rp {
  stack_remaining = rp.stack_remaining +ℤ pm.stack_delta;
  committed_this_street = rp.committed_this_street +ℤ pm.street_commit_delta;
  committed_this_hand = rp.committed_this_hand +ℤ pm.hand_commit_delta;
  has_folded = if pm.should_fold then true else rp.has_folded;
  is_active_in_hand = if pm.should_fold then false else rp.is_active_in_hand;
  is_all_in = if pm.should_all_in then true else rp.is_all_in;
}

-- The loop over the players stops at the first one with the id.
unfoldable pub mutate_players : PlayerMutation → List RoundPlayer → List RoundPlayer
mutate_players pm [] = []
mutate_players pm (rp ∷ rps) =
    if str_eq rp.player_id pm.player_id
    then mutate_player pm rp ∷ rps
    else rp ∷ mutate_players pm rps

-- `state_version or 1`
abbrev pub version_or_one : ℤ → ℤ
version_or_one v = if eqb_ℤ v (pos 0) then pos 1 else v

unfoldable pub mutate_round : RoundMutation → Round → Round
mutate_round rm r = record r {
  pot_amount = r.pot_amount +ℤ rm.pot_delta;
  current_highest_bet = or_else rm.new_highest_bet r.current_highest_bet;
  minimum_raise_amount = or_else rm.new_min_raise r.minimum_raise_amount;
  last_aggressor_seat = first_some rm.new_last_aggressor_seat r.last_aggressor_seat;
  acting_player_id = if rm.is_action_closed then none else rm.new_acting_player_id;
  is_action_closed = rm.is_action_closed;
  state_version = version_or_one r.state_version +ℤ pos 1;
}

-- `_apply_transition`
unfoldable pub apply_transition :
    Round → List RoundPlayer → HandTransition → Round × List RoundPlayer
unfolding mutate_players
apply_transition r rps t = (mutate_round t.round_mutation r, mutate_players t.player_mutation rps)

-- `expected_version is not None and (state_version or 1) != expected_version`
abbrev pub is_stale : Option ℤ → Round → Bool
is_stale none r = false
is_stale (some expected) r = not (eqb_ℤ (version_or_one r.state_version) expected)

abbrev pub result_of : HandTransition → ApplyActionResult
result_of t = record {
  action = t.action;
  amount = t.amount;
  is_round_closed = t.is_round_closed;
  next_player_id = t.next_player_id;
}

unfoldable pub apply_action :
    Round
    → List RoundPlayer
    → String
    → Option BetAction
    → ℤ
    → RulesProfile
    → Option ℤ
    → Result (Round × List RoundPlayer × ApplyActionResult)
unfolding transition_hand_state apply_transition
apply_action r rps player_id action amount rules expected_version = do
  raise_if (is_stale expected_version r) DomainError.stale_state
  t ←
      transition_hand_state (build_hand_context r rps) player_id action amount r.last_aggressor_seat
        rules
  let (r', rps') = apply_transition r rps t
  ok (r', rps', result_of t)
