-- ===== src/Application/HandCompletion.antt =====
-- services/game-service/app/application/hand_completion.py: what a completed hand does to the counters
-- of its game and to the blind level. Each reading of the clock within one call is the argument `now`.
pub mod Laws
use poker_room_backend.Prelude.{
  ℤ, pos, ◌+ℤ◌, ◌*ℤ◌, Bool, true, false, Option, none, some, map, eqb_ℤ, ltb_ℤ, if◌then◌else◌,
  or_else, max_default,
}
use poker_room_backend.Domain.Models.{Game}
use poker_room_backend.Domain.RoomConfig.{BlindLevelConfig, RoomConfig, blind_level}
use poker_room_backend.Engine.TableRuntime.{BlindClock, should_advance, advance, record_hand}

pub record HandCompletionResult : Type 0 where
  pub hands_played : ℤ
  pub hands_at_current_level : ℤ
  pub current_blind_level : ℤ
  pub level_started_at : ℤ
  pub blind_level_advanced : Bool

-- `max((bl.level for bl in room_config.blind_levels), default=1)`
abbrev pub max_level : RoomConfig → ℤ
max_level config = max_default (pos 1) (map (λ bl. bl.level) config.blind_levels)

-- The clock of a game; `ensure_utc(None)` is the current time.
abbrev pub clock_of : ℤ → Game → BlindClock
clock_of now game = record {
  current_level = game.current_blind_level;
  level_started_at = or_else game.level_started_at now;
  hands_at_level = game.hands_at_current_level;
}

-- The minutes of a level as seconds; no minutes, or 0 of them, is no limit.
abbrev pub level_seconds : Option ℤ → Option ℤ
level_seconds none = none
level_seconds (some minutes) = if eqb_ℤ minutes (pos 0) then none else some (minutes *ℤ pos 60)

unfoldable pub seconds_per_level : Game → RoomConfig → Option ℤ
seconds_per_level game config = elim (blind_level config game.current_blind_level) [
  | none ↦ none
  | some current_bl ↦ level_seconds current_bl.duration_minutes
]

-- The clock after a hand that counts, and whether the level was raised.
unfoldable pub counted_clock : ℤ → Game → RoomConfig → BlindClock × Bool
counted_clock now game config =
    let clock = record_hand (clock_of now game) in
    if should_advance clock none (seconds_per_level game config) now
    then (if ltb_ℤ game.current_blind_level (max_level config)
        then (advance clock now, true)
        else (clock, false))
    else (clock, false)

abbrev pub completion_of : ℤ → BlindClock × Bool → HandCompletionResult
completion_of hands (clock, advanced) = record {
  hands_played = hands;
  hands_at_current_level = clock.hands_at_level;
  current_blind_level = clock.current_level;
  level_started_at = clock.level_started_at;
  blind_level_advanced = advanced;
}

unfoldable pub apply_hand_completion : ℤ → Game → RoomConfig → Bool → HandCompletionResult
apply_hand_completion now game config should_count_hand =
    if should_count_hand
    then completion_of (game.hands_played +ℤ pos 1) (counted_clock now game config)
    else completion_of game.hands_played (clock_of now game, false)

-- The four writes of the callers.
abbrev pub write_completion : HandCompletionResult → Game → Game
write_completion c game = record game {
  hands_played = c.hands_played;
  hands_at_current_level = c.hands_at_current_level;
  current_blind_level = c.current_blind_level;
  level_started_at = some c.level_started_at;
}
