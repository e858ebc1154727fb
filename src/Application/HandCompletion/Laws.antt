-- ===== src/Application/HandCompletion/Laws.antt =====
-- The counters of a game and its blind level stay in bounds.
use poker_room_backend.Prelude.{
  ℤ, pos, ◌+ℤ◌, ◌≤ℤ◌, ◌≡◌, refl, sym, max_ℤ, none, Bool, true, false, inl, inr, arith, int_laws,
  Bool-cases, ltb_ℤ, if◌then◌else◌,
}
use poker_room_backend.Domain.Models.{Game}
use poker_room_backend.Domain.RoomConfig.{RoomConfig}
use poker_room_backend.Engine.TableRuntime.{should_advance, advance, record_hand}
use poker_room_backend.Application.HandCompletion.{
  HandCompletionResult, max_level, clock_of, seconds_per_level, counted_clock, completion_of,
  apply_hand_completion,
}

-- A hand that counts stays on its level, with one hand more, or moves to the next level, which is no
-- higher than the last one, with none.
data Counted (game : Game) (config : RoomConfig) (c : HandCompletionResult) : Type 0 where
  stays :
      c.blind_level_advanced ≡ false
      → c.current_blind_level ≡ game.current_blind_level
      → c.hands_at_current_level ≡ game.hands_at_current_level +ℤ pos 1
      → Counted game config c
  moves :
      c.blind_level_advanced ≡ true
      → c.current_blind_level ≡ game.current_blind_level +ℤ pos 1
      → c.current_blind_level ≤ℤ max_level config
      → c.hands_at_current_level ≡ pos 0
      → Counted game config c

counted_clock-Counted :
    (now : ℤ) (game : Game) (config : RoomConfig)
    → Counted game config
        (completion_of (game.hands_played +ℤ pos 1) (counted_clock now game config))
unfolding counted_clock advance record_hand
counted_clock-Counted now game config =
    elim (Bool-cases
      (should_advance (record_hand (clock_of now game)) none (seconds_per_level game config) now)) [
        | inl over ↦ elim (Bool-cases (ltb_ℤ game.current_blind_level (max_level config))) [
          | inl less ↦ rw (counted_clock, over, less) (moves refl refl (next_level less) refl)
          | inr last ↦ rw (counted_clock, over, last) (stays refl refl refl)
        ]
        | inr on ↦ rw (counted_clock, on) (stays refl refl refl)
      ]
  where
    next_level :
        ltb_ℤ game.current_blind_level (max_level config) ≡ true
        → game.current_blind_level +ℤ pos 1 ≤ℤ max_level config
    next_level less = bound game.current_blind_level (max_level config) less
      where
        bound : (a b : ℤ) → ltb_ℤ a b ≡ true → a +ℤ pos 1 ≤ℤ b
        bound a b h = grind int_laws

-- What completing a hand leaves of the counters.
pub record IsCompletion (game : Game) (config : RoomConfig) (count : Bool)
    (c : HandCompletionResult) : Type 0 where
  pub hands : c.hands_played ≡ game.hands_played +ℤ (if count then pos 1 else pos 0)
  pub level_low : game.current_blind_level ≤ℤ c.current_blind_level
  pub level_high : c.current_blind_level ≤ℤ max_ℤ game.current_blind_level (max_level config)
  pub hands_nonneg : pos 0 ≤ℤ game.hands_at_current_level → pos 0 ≤ℤ c.hands_at_current_level
  pub advanced_if :
      c.blind_level_advanced ≡ true → c.current_blind_level ≡ game.current_blind_level +ℤ pos 1
  pub stays_if : c.blind_level_advanced ≡ false → c.current_blind_level ≡ game.current_blind_level

Counted-IsCompletion :
    (game : Game) (config : RoomConfig) (c : HandCompletionResult)
    → c.hands_played ≡ game.hands_played +ℤ pos 1
    → Counted game config c
    → IsCompletion game config true c
Counted-IsCompletion game config c hands (stays flag level at_level) = record {
  hands = hands;
  level_low = grind (int_laws, level);
  level_high = grind (int_laws, level);
  hands_nonneg = λ h. grind (int_laws, at_level);
  advanced_if = λ e. absurd (ground arith);
  stays_if = λ _. level;
}
Counted-IsCompletion game config c hands (moves flag level bound at_level) = record {
  hands = hands;
  level_low = grind (int_laws, level);
  level_high = below game.current_blind_level (max_level config) c.current_blind_level bound;
  hands_nonneg = λ h. grind (int_laws, at_level);
  advanced_if = λ _. level;
  stays_if = λ e. absurd (ground arith);
}
  where
    below : (a b x : ℤ) → x ≤ℤ b → x ≤ℤ max_ℤ a b
    below a b x h = ground arith

-- Completing a hand counts it once if it is to be counted and never otherwise. The blind level does not
-- go down, goes up by one exactly when the result says that it was raised, and does not pass the last
-- level of the room unless it had before; the hands at the level stay at 0 or more.
pub apply_hand_completion_lem :
    (now : ℤ) (game : Game) (config : RoomConfig) (count : Bool)
    → IsCompletion game config count (apply_hand_completion now game config count)
unfolding apply_hand_completion
apply_hand_completion_lem now game config true =
    Counted-IsCompletion game config _ refl (counted_clock-Counted now game config)
apply_hand_completion_lem now game config false = record {
  hands = sym (plus_zero game.hands_played);
  level_low = omega arith;
  level_high = at_most game.current_blind_level (max_level config);
  hands_nonneg = λ h. h;
  advanced_if = λ e. absurd (ground arith);
  stays_if = λ _. refl;
}
  where
    plus_zero : (a : ℤ) → a +ℤ pos 0 ≡ a
    plus_zero a = omega int_laws

    at_most : (a b : ℤ) → a ≤ℤ max_ℤ a b
    at_most a b = ground arith
