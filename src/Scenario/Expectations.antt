-- ===== src/Scenario/Expectations.antt =====
-- What an expectation of a script asks of the hand (services/game-service/app/domain/scenario_runner.py).
use poker_room_backend.Prelude.{
  ℤ, ◌≡◌, ◌↔◌, refl, ap, ◌∙◌, All-map, String, true, false, Option, none, some, List, arith,
  eqb_ℤ_iff, str_eq, eq_iff, find_first, All,
}
use poker_room_backend.Domain.Exceptions.{DomainError}
use poker_room_backend.Domain.Models.{RoundPlayer}
use poker_room_backend.Scenario.{Expectation, Running, holds, stack_is, is_folded, error_is}

abbrev pub player_of : String → List RoundPlayer → Option RoundPlayer
player_of player_id rps = find_first (λ rp. str_eq rp.player_id player_id) rps

-- An expectation of an unknown type is never met.
abbrev pub IsMet : (DomainError → String) → Running → Expectation → Type 0
IsMet type_name h (Expectation.pot amount) = h.game_round.pot_amount ≡ amount
IsMet type_name h Expectation.action_closed = h.game_round.is_action_closed ≡ true
IsMet type_name h (Expectation.player_stack player_id stack) =
    (rp : RoundPlayer) × (player_of player_id h.round_players ≡ some rp)
    × (rp.stack_remaining ≡ stack)
IsMet type_name h (Expectation.player_folded player_id) =
    (rp : RoundPlayer) × (player_of player_id h.round_players ≡ some rp) × (rp.has_folded ≡ true)
IsMet type_name h (Expectation.error error_type) =
    (e : DomainError) × (h.last_error ≡ some e) × (type_name e ≡ error_type)
IsMet type_name h (Expectation.unknown check_type) = ⊥

none-ne-some : {A : Type 0} {a : A} → none ≡ some a → ⊥
none-ne-some e = ground arith

false-ne-true : false ≡ true → ⊥
false-ne-true e = ground arith

some_inj : {A : Type 0} {a b : A} → some a ≡ some b → a ≡ b
some_inj e = cc

stack_is_iff :
    (o : Option RoundPlayer) (stack : ℤ)
    → (stack_is o stack ≡ true)
      ↔ ((rp : RoundPlayer) × (o ≡ some rp) × (rp.stack_remaining ≡ stack))
stack_is_iff none stack = ((λ e. absurd (false-ne-true e)), (λ t. absurd (none-ne-some t.1)))
stack_is_iff (some rp) stack = (
  (λ e. (rp, refl, (eqb_ℤ_iff rp.stack_remaining stack).0 e)),
  (λ t. (eqb_ℤ_iff rp.stack_remaining stack).1 (ap (λ q. q.stack_remaining) (some_inj t.1) ∙ t.2)),
)

is_folded_iff :
    (o : Option RoundPlayer)
    → (is_folded o ≡ true) ↔ ((rp : RoundPlayer) × (o ≡ some rp) × (rp.has_folded ≡ true))
is_folded_iff none = ((λ e. absurd (false-ne-true e)), (λ t. absurd (none-ne-some t.1)))
is_folded_iff (some rp) = ((λ e. (rp, refl, e)), (λ t. ap (λ q. q.has_folded) (some_inj t.1) ∙ t.2))

error_is_iff :
    (type_name : DomainError → String) (o : Option DomainError) (error_type : String)
    → (error_is type_name o error_type ≡ true)
      ↔ ((e : DomainError) × (o ≡ some e) × (type_name e ≡ error_type))
error_is_iff type_name none error_type =
    ((λ e. absurd (false-ne-true e)), (λ t. absurd (none-ne-some t.1)))
error_is_iff type_name (some x) error_type = (
  (λ e. (x, refl, (eq_iff (type_name x) error_type).0 e)),
  (λ t. (eq_iff (type_name x) error_type).1 (ap type_name (some_inj t.1) ∙ t.2)),
)

pub holds_iff :
    (type_name : DomainError → String) (h : Running) (e : Expectation)
    → (holds type_name h e ≡ true) ↔ IsMet type_name h e
unfolding holds
holds_iff type_name h (Expectation.pot amount) = eqb_ℤ_iff h.game_round.pot_amount amount
holds_iff type_name h Expectation.action_closed = ((λ e. e), (λ e. e))
holds_iff type_name h (Expectation.player_stack player_id stack) =
    stack_is_iff (player_of player_id h.round_players) stack
holds_iff type_name h (Expectation.player_folded player_id) =
    is_folded_iff (player_of player_id h.round_players)
holds_iff type_name h (Expectation.error error_type) =
    error_is_iff type_name h.last_error error_type
holds_iff type_name h (Expectation.unknown check_type) =
    ((λ e. absurd (false-ne-true e)), (λ e. absurd e))

-- All expectations hold exactly when all are met.
pub all_hold_iff :
    (type_name : DomainError → String) (h : Running) (es : List Expectation)
    → All (λ e. holds type_name h e ≡ true) es ↔ All (IsMet type_name h) es
all_hold_iff type_name h es =
    (All-map (λ e. (holds_iff type_name h e).0) es, All-map (λ e. (holds_iff type_name h e).1) es)
