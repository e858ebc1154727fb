-- ===== src/Domain/Exceptions.antt =====
-- services/game-service/app/domain/exceptions.py: the classes under `DomainError`, without their
-- messages, and the result of a function that may raise one of them.
use poker_room_backend.Prelude.{◌≡◌, refl, Bool, true, false}

pub data DomainError : Type 0 where
  round_not_active action_closed round_not_completed round_already_active : DomainError
  already_at_showdown player_not_in_hand player_already_folded player_already_all_in : DomainError
  not_your_turn illegal_action check_not_allowed call_not_allowed bet_not_allowed : DomainError
  raise_not_allowed raise_below_minimum amount_exceeds_stack invalid_amount : DomainError
  game_not_active game_already_exists round_start_not_allowed not_found : DomainError
  ledger_entry_not_found entry_already_reversed cannot_reverse_correction : DomainError
  payout_exceeds_pot payout_empty payout_mismatch stale_state duplicate_action : DomainError
  idempotency_conflict not_enough_active_players session_not_paused : DomainError
  seat_not_active seat_not_sitting_out seat_not_found : DomainError

pub data Result {ℓ} (A : Type ℓ) : Type ℓ where
  ok : A → Result A
  err : DomainError → Result A

-- `if test: raise e`
abbrev pub raise_if : Bool → DomainError → Result (Unit {0})
raise_if true e = err e
raise_if false e = ok tt

infixl 5 ◌>>=◌
abbrev pub ◌>>=◌ {ℓ κ} : {X : Type ℓ} {Y : Type κ} (r : Result X) (next : X → Result Y) → Result Y
err e >>= next = err e
ok x >>= next = next x

infixl 5 ◌>>◌
abbrev pub ◌>>◌ {ℓ} : {Y : Type ℓ} (r : Result (Unit {0})) (rest : Result Y) → Result Y
r >> rest = r >>= λ _. rest

-- A guard that did not raise.
pub raise_if-eq-ok {ℓ} :
    {Y : Type ℓ} (test : Bool) (e : DomainError) (rest : Result Y) {y : Y}
    → (raise_if test e >> rest) ≡ ok y
    → (test ≡ false) × (rest ≡ ok y)
raise_if-eq-ok true e rest h = cc
raise_if-eq-ok false e rest h = (refl, h)

-- What a `do` block that returned did first.
pub >>=-eq-ok {ℓ κ} :
    {X : Type ℓ} {Y : Type κ} (r : Result X) (next : X → Result Y) {y : Y}
    → (r >>= next) ≡ ok y
    → (x : X) × (r ≡ ok x) × (next x ≡ ok y)
>>=-eq-ok (err e) next h = cc
>>=-eq-ok (ok x) next returned = (x, refl, returned)
