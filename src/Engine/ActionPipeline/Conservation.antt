-- ===== src/Engine/ActionPipeline/Conservation.antt =====
-- An action moves chips from one stack to the pot, and makes none.
use poker_room_backend.Prelude.{
  ℤ, pos, ◌+ℤ◌, ◌-ℤ◌, ◌≡◌, refl, ap, ◌∙◌, Bool, String, Option, some, List, [], ◌∷◌, map, str_eq,
  inl, inr, arith, int_laws, Bool-cases, find_first, sum_by, All, All-map, if◌then◌else◌, true,
}
use poker_room_backend.Domain.Constants.{BetAction}
use poker_room_backend.Domain.Exceptions.{ok}
use poker_room_backend.Domain.Models.{Round, RoundPlayer}
use poker_room_backend.Domain.Rules.{RulesProfile}
use poker_room_backend.Engine.Validator.{PlayerState, ValidatedAction, get_player}
use poker_room_backend.Engine.ActionPipeline.{
  PlayerMutation, ApplyActionResult, player_state, apply_action, build_hand_context, commits,
  commit_delta, mutate_round, mutate_player, mutate_players, player_mutation_of, round_mutation_of,
}
use poker_room_backend.Engine.ActionPipeline.Inversion.{
  Accepted, apply_action-Accepted, commit_delta-eq-amount,
}

-- The first player with an id, as the context of the hand shows it.
abbrev pub Found : String → List RoundPlayer → PlayerState → Type 0
Found player_id rps p =
    find_first (λ q. str_eq q.player_id player_id) (map player_state rps) ≡ some p

pub same_player :
    {b : Bool} {p q : PlayerState} (o : Option PlayerState)
    → b ≡ true
    → (if b then some p else o) ≡ some q
    → p ≡ q
same_player o e h = ground arith

-- A column that the mutation moves by `d` moves by `d` in the sum over the players.
sum_by-mutate_players :
    (f : RoundPlayer → ℤ) (d : ℤ) (pm : PlayerMutation) (rps : List RoundPlayer) (p : PlayerState)
    → ((rp : RoundPlayer) → f (mutate_player pm rp) ≡ f rp +ℤ d)
    → Found pm.player_id rps p
    → sum_by f (mutate_players pm rps) ≡ sum_by f rps +ℤ d
unfolding mutate_players
sum_by-mutate_players f d pm [] p moved found = cc
sum_by-mutate_players f d pm (rp ∷ rps) p moved found =
    elim (Bool-cases (str_eq rp.player_id pm.player_id)) [
      | inl it ↦ rw (it, moved rp) (omega int_laws)
      | inr other ↦
          rw (other, sum_by-mutate_players f d pm rps p moved (rw other at found)) (omega int_laws)
    ]

-- A property of the players that the mutation gives the player who acts, and that the others keep.
pub All-mutate_players :
    (P Q : RoundPlayer → Type 0) (pm : PlayerMutation) (rps : List RoundPlayer) (p : PlayerState)
    → ((rp : RoundPlayer) → P rp → Q rp)
    → ((rp : RoundPlayer) → player_state rp ≡ p → P rp → Q (mutate_player pm rp))
    → Found pm.player_id rps p
    → All P rps
    → All Q (mutate_players pm rps)
unfolding mutate_players
All-mutate_players P Q pm [] p keep act found h = tt
All-mutate_players P Q pm (rp ∷ rps) p keep act found h =
    elim (Bool-cases (str_eq rp.player_id pm.player_id)) [
      | inl it ↦ rw it (act rp (same_player _ it found) h.0, All-map keep rps h.1)
      | inr other ↦
          rw other (keep rp h.0, All-mutate_players P Q pm rps p keep act (rw other at found) h.1)
    ]

-- The chips on the table: every stack, and the pot.
abbrev pub chips : Round → List RoundPlayer → ℤ
chips r rps = sum_by (λ rp. rp.stack_remaining) rps +ℤ r.pot_amount

abbrev pub committed : List RoundPlayer → ℤ
committed rps = sum_by (λ rp. rp.committed_this_hand) rps

stack_delta-eq :
    (player_id : String) (v : ValidatedAction)
    → (player_mutation_of player_id v).stack_delta ≡ pos 0 -ℤ commit_delta v
unfolding player_mutation_of
stack_delta-eq player_id v = elim (Bool-cases (commits v.action)) [
  | inl yes' ↦ rw yes' refl
  | inr no' ↦ rw no' (omega int_laws)
]

stack-mutate_player :
    (pm : PlayerMutation) (rp : RoundPlayer)
    → (mutate_player pm rp).stack_remaining ≡ rp.stack_remaining +ℤ pm.stack_delta
unfolding mutate_player
stack-mutate_player pm rp = refl

hand-mutate_player :
    (player_id : String) (v : ValidatedAction) (rp : RoundPlayer)
    → (mutate_player (player_mutation_of player_id v) rp).committed_this_hand
      ≡ rp.committed_this_hand +ℤ commit_delta v
unfolding mutate_player player_mutation_of
hand-mutate_player player_id v rp = refl

module _ (r : Round) (rps : List RoundPlayer) (player_id : String) (action : Option BetAction)
    (amount : ℤ) (expected_version : Option ℤ) {r' : Round} {rps' : List RoundPlayer}
    {res : ApplyActionResult}
    (a : Accepted r rps player_id action amount expected_version r' rps' res) where
  paid : commit_delta a.v ≡ a.v.amount
  paid = commit_delta-eq-amount (build_hand_context r rps) a.p action amount a.v a.legal

  pub found : Found (player_mutation_of player_id a.v).player_id rps a.p
  unfolding get_player build_hand_context player_mutation_of
  found = a.may_act.found

  stacks_moved :
      sum_by (λ rp. rp.stack_remaining) rps'
      ≡ sum_by (λ rp. rp.stack_remaining) rps +ℤ (pos 0 -ℤ a.v.amount)
  stacks_moved = rw a.new_players (
      sum_by-mutate_players (λ rp. rp.stack_remaining) _ (player_mutation_of player_id a.v) rps a.p
        (stack-mutate_player (player_mutation_of player_id a.v)) found
      ∙ ap (λ d. sum_by (λ (rp : RoundPlayer). rp.stack_remaining) rps +ℤ d)
          (stack_delta-eq player_id a.v ∙ ap (λ x. pos 0 -ℤ x) paid))

  pub committed_moved : committed rps' ≡ committed rps +ℤ a.v.amount
  committed_moved = rw a.new_players (
      sum_by-mutate_players (λ rp. rp.committed_this_hand) _ (player_mutation_of player_id a.v) rps
        a.p (hand-mutate_player player_id a.v) found
      ∙ ap (λ d. committed rps +ℤ d) paid)

  pub pot_moved : r'.pot_amount ≡ r.pot_amount +ℤ a.v.amount
  unfolding mutate_round round_mutation_of
  pot_moved = rw a.new_round refl

  pub chips_moved : chips r' rps' ≡ chips r rps
  chips_moved = rw (stacks_moved, pot_moved) (omega int_laws)

-- An accepted action conserves the chips on the table, and keeps the pot at the sum of what the
-- players have committed to the hand.
pub chips-apply_action :
    (r : Round) (rps : List RoundPlayer) (player_id : String) (action : Option BetAction)
    (amount : ℤ) (rules : RulesProfile) (expected_version : Option ℤ) {r' : Round}
    {rps' : List RoundPlayer} {res : ApplyActionResult}
    → apply_action r rps player_id action amount rules expected_version ≡ ok (r', rps', res)
    → (chips r' rps' ≡ chips r rps)
      × (r'.pot_amount ≡ r.pot_amount +ℤ res.amount)
      × (committed rps' ≡ committed rps +ℤ res.amount)
chips-apply_action r rps player_id action amount rules expected_version h =
    let a = apply_action-Accepted r rps player_id action amount rules expected_version h in
    let moved = committed_moved r rps player_id action amount expected_version a in
    (
      chips_moved r rps player_id action amount expected_version a,
      rw a.same_amount (pot_moved r rps player_id action amount expected_version a),
      rw a.same_amount moved,
    )
