-- ===== src/Engine/ActionPipeline/Invariant.antt =====
-- The state that a hand keeps between actions: the CHECK constraints of the stored rows, and what
-- ties stacks, commitments and flags together.
use poker_room_backend.Prelude.{
  ℤ, pos, ◌+ℤ◌, ◌≤ℤ◌, ◌<ℤ◌, ◌≡◌, refl, sym, subst, String, Option, none, some, List, arith,
  int_laws, All, true, false, or_else,
}
use poker_room_backend.Domain.Constants.{BetAction}
use poker_room_backend.Domain.Exceptions.{ok}
use poker_room_backend.Domain.Models.{Round, RoundPlayer}
use poker_room_backend.Domain.Rules.{RulesProfile}
use poker_room_backend.Engine.Validator.{PlayerState, HandContext, ValidatedAction}
use poker_room_backend.Engine.Validator.Legal.{MayAct, IsLegal}
use poker_room_backend.Engine.ActionPipeline.{
  ApplyActionResult, player_state, apply_action, build_hand_context, mutate_round, mutate_player,
  player_mutation_of, round_mutation_of, highest_after, min_raise_after, version_or_one,
}
use poker_room_backend.Engine.ActionPipeline.Inversion.{Accepted, apply_action-Accepted}
use poker_room_backend.Engine.ActionPipeline.Conservation.{
  committed, All-mutate_players, found, committed_moved, pot_moved,
}

-- One player, under the highest bet of the street.
pub record IsSoundPlayer (highest : ℤ) (rp : RoundPlayer) : Type 0 where
  pub stack_nonneg : pos 0 ≤ℤ rp.stack_remaining
  pub street_nonneg : pos 0 ≤ℤ rp.committed_this_street
  pub street-le-hand : rp.committed_this_street ≤ℤ rp.committed_this_hand
  pub street-le-highest : rp.committed_this_street ≤ℤ highest
  -- a player is all-in exactly when no chip is left
  pub all_in_if : rp.is_all_in ≡ true → rp.stack_remaining ≤ℤ pos 0
  pub chips_if : rp.is_all_in ≡ false → pos 0 <ℤ rp.stack_remaining
  pub folded_if : rp.has_folded ≡ true → rp.is_active_in_hand ≡ false

pub record IsSound (r : Round) (rps : List RoundPlayer) : Type 0 where
  pub highest_nonneg : pos 0 ≤ℤ r.current_highest_bet
  pub min_raise_nonneg : pos 0 ≤ℤ r.minimum_raise_amount
  pub version_pos : pos 0 <ℤ r.state_version
  pub big_blind_nonneg : pos 0 ≤ℤ r.big_blind_amount
  pub pot-eq-committed : r.pot_amount ≡ committed rps
  pub players : All (IsSoundPlayer r.current_highest_bet) rps

-- The highest bet does not fall.
highest-le-after :
    (ctx : HandContext) (p : PlayerState) (v : ValidatedAction)
    → ctx.current_highest_bet ≤ℤ or_else (highest_after ctx p v) ctx.current_highest_bet
unfolding highest_after
highest-le-after ctx p v = ground arith

-- The player who acts stays sound under the new highest bet.
actor-IsSoundPlayer :
    (ctx : HandContext) (player_id : String) (rp : RoundPlayer) (action : Option BetAction)
    (amount : ℤ) (v : ValidatedAction)
    → MayAct ctx player_id (player_state rp)
    → IsLegal ctx (player_state rp) action amount v
    → IsSoundPlayer ctx.current_highest_bet rp
    → IsSoundPlayer
        (or_else (highest_after ctx (player_state rp) v) ctx.current_highest_bet)
        (mutate_player (player_mutation_of player_id v) rp)
unfolding highest_after mutate_player player_mutation_of
actor-IsSoundPlayer ctx player_id rp none amount v may legal h = absurd legal
actor-IsSoundPlayer ctx player_id rp (some BetAction.fold) amount v may legal h = grind int_laws
actor-IsSoundPlayer ctx player_id rp (some BetAction.check) amount v may legal h = grind int_laws
actor-IsSoundPlayer ctx player_id rp (some BetAction.call) amount v may legal h = grind int_laws
actor-IsSoundPlayer ctx player_id rp (some BetAction.bet) amount v may legal h = grind int_laws
actor-IsSoundPlayer ctx player_id rp (some BetAction.raise) amount v may legal h = grind int_laws
actor-IsSoundPlayer ctx player_id rp (some BetAction.all_in) amount v may legal h = grind int_laws

keep-IsSoundPlayer :
    (h h' : ℤ) → h ≤ℤ h' → (rp : RoundPlayer) → IsSoundPlayer h rp → IsSoundPlayer h' rp
keep-IsSoundPlayer h h' le rp s = ground arith

highest_nonneg_after :
    (ctx : HandContext) (p : PlayerState) (v : ValidatedAction)
    → pos 0 ≤ℤ ctx.current_highest_bet
    → pos 0 ≤ℤ or_else (highest_after ctx p v) ctx.current_highest_bet
highest_nonneg_after ctx p v h = omega (arith, highest-le-after ctx p v)

min_raise_nonneg_after :
    (ctx : HandContext) (p : PlayerState) (v : ValidatedAction)
    → pos 0 ≤ℤ ctx.minimum_raise_amount
    → pos 0 ≤ℤ or_else (min_raise_after ctx p v) ctx.minimum_raise_amount
unfolding min_raise_after
min_raise_nonneg_after ctx p v h = ground arith

pub version_grows : (n : ℤ) → pos 0 <ℤ n → pos 0 <ℤ version_or_one n +ℤ pos 1
version_grows n h = grind int_laws

module _ (r : Round) (rps : List RoundPlayer) (player_id : String) (action : Option BetAction)
    (amount : ℤ) (expected_version : Option ℤ) {r' : Round} {rps' : List RoundPlayer}
    {res : ApplyActionResult}
    (a : Accepted r rps player_id action amount expected_version r' rps' res)
    (s : IsSound r rps) where
  highest_moved :
      r'.current_highest_bet
      ≡ or_else (highest_after (build_hand_context r rps) a.p a.v) r.current_highest_bet
  unfolding mutate_round round_mutation_of
  highest_moved = rw a.new_round refl

  players-IsSound : All (IsSoundPlayer r'.current_highest_bet) rps'
  unfolding build_hand_context
  players-IsSound =
      rw (highest_moved, a.new_players)
        (All-mutate_players (IsSoundPlayer r.current_highest_bet)
          (IsSoundPlayer
            (or_else (highest_after (build_hand_context r rps) a.p a.v) r.current_highest_bet))
          (player_mutation_of player_id a.v) rps a.p
          (keep-IsSoundPlayer _ _ (highest-le-after (build_hand_context r rps) a.p a.v))
          (λ rp e sp.
            subst
              (λ q.
                IsSoundPlayer
                  (or_else (highest_after (build_hand_context r rps) q a.v) r.current_highest_bet)
                  (mutate_player (player_mutation_of player_id a.v) rp))
              e
              (actor-IsSoundPlayer (build_hand_context r rps) player_id rp action amount a.v
                (subst (λ q. MayAct (build_hand_context r rps) player_id q) (sym e) a.may_act)
                (subst (λ q. IsLegal (build_hand_context r rps) q action amount a.v) (sym e)
                  a.legal)
                sp))
          (found r rps player_id action amount expected_version a) s.players)

  min_raise_moved :
      r'.minimum_raise_amount
      ≡ or_else (min_raise_after (build_hand_context r rps) a.p a.v) r.minimum_raise_amount
  unfolding mutate_round round_mutation_of
  min_raise_moved = rw a.new_round refl

  version_moved : r'.state_version ≡ version_or_one r.state_version +ℤ pos 1
  unfolding mutate_round
  version_moved = rw a.new_round refl

  big_blind_kept : r'.big_blind_amount ≡ r.big_blind_amount
  unfolding mutate_round
  big_blind_kept = rw a.new_round refl

  pub Accepted-IsSound : IsSound r' rps'
  unfolding build_hand_context
  Accepted-IsSound = record {
    highest_nonneg =
        rw highest_moved (highest_nonneg_after (build_hand_context r rps) a.p a.v s.highest_nonneg);
    min_raise_nonneg =
        rw min_raise_moved
          (min_raise_nonneg_after (build_hand_context r rps) a.p a.v s.min_raise_nonneg);
    version_pos = rw version_moved (version_grows r.state_version s.version_pos);
    big_blind_nonneg = rw big_blind_kept s.big_blind_nonneg;
    pot-eq-committed =
        rw
          (
            pot_moved r rps player_id action amount expected_version a,
            committed_moved r rps player_id action amount expected_version a,
            s.pot-eq-committed,
          )
          refl;
    players = players-IsSound;
  }

-- Every accepted action keeps the state of the hand sound.
pub apply_action-IsSound :
    (r : Round) (rps : List RoundPlayer) (player_id : String) (action : Option BetAction)
    (amount : ℤ) (rules : RulesProfile) (expected_version : Option ℤ) {r' : Round}
    {rps' : List RoundPlayer} {res : ApplyActionResult}
    → IsSound r rps
    → apply_action r rps player_id action amount rules expected_version ≡ ok (r', rps', res)
    → IsSound r' rps'
apply_action-IsSound r rps player_id action amount rules expected_version s h =
    Accepted-IsSound r rps player_id action amount expected_version
      (apply_action-Accepted r rps player_id action amount rules expected_version h) s
