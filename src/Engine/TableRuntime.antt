-- ===== src/Engine/TableRuntime.antt =====
-- services/game-service/app/domain/engine/table_runtime.py: the seats of a table, its session and
-- its blind clock. Times are microseconds; the clock's `now` is an argument.
pub mod Laws
use poker_room_backend.Prelude.{
  ℤ, pos, ◌+ℤ◌, ◌-ℤ◌, ◌*ℤ◌, String, Bool, true, false, not, ◌&&◌, ◌||◌, Option, none, some, List,
  [], ◌∷◌, map, str_eq, ltb, leb, leb_ℤ, eqb_ℤ, if◌then◌else◌, length, select, is_some,
}
use poker_room_backend.Domain.Exceptions.{DomainError, Result, ok, err, ◌>>=◌, ◌>>◌, raise_if}

pub data SeatStatus : Type 0 where
  active sitting_out empty : SeatStatus

pub data TableStatus : Type 0 where
  waiting running paused finished : TableStatus

pub record TableSeat : Type 0 where
  pub seat_number : ℤ
  pub player_id : Option String
  pub status : SeatStatus
  pub chip_count : ℤ
  pub hands_sat_out : ℤ

pub record BlindClock : Type 0 where
  pub current_level : ℤ
  pub level_started_at : ℤ
  pub hands_at_level : ℤ

pub record TableRuntime : Type 0 where
  pub game_id : String
  pub status : TableStatus
  pub seats : List TableSeat
  pub blind_clock : BlindClock
  pub hands_played : ℤ
  pub dealer_seat : Option ℤ

abbrev reaches : ℤ → Option ℤ → Bool
reaches n none = false
reaches n (some limit) = leb_ℤ limit n

abbrev lasts : ℤ → Option ℤ → Bool
lasts elapsed none = false
lasts elapsed (some seconds) = leb_ℤ (seconds *ℤ pos 1000000) elapsed

unfoldable pub should_advance : BlindClock → Option ℤ → Option ℤ → ℤ → Bool
should_advance c hands_per_level seconds_per_level now =
    if reaches c.hands_at_level hands_per_level
    then true
    else lasts (now -ℤ c.level_started_at) seconds_per_level

unfoldable pub advance : BlindClock → ℤ → BlindClock
advance c now = record {
  current_level = c.current_level +ℤ pos 1;
  level_started_at = now;
  hands_at_level = pos 0;
}

unfoldable pub record_hand : BlindClock → BlindClock
record_hand c = record c { hands_at_level = c.hands_at_level +ℤ pos 1 }

abbrev pub is_active : SeatStatus → Bool
is_active SeatStatus.active = true
is_active _ = false

abbrev pub is_sitting_out : SeatStatus → Bool
is_sitting_out SeatStatus.sitting_out = true
is_sitting_out _ = false

-- `s.player_id` as a test: neither `None` nor the empty string
abbrev pub names_player : Option String → Bool
names_player none = false
names_player (some player_id) = not (str_eq player_id "")

abbrev pub is_active_seat : TableSeat → Bool
is_active_seat s = is_active s.status && names_player s.player_id

unfoldable pub active_seats : TableRuntime → List TableSeat
active_seats t = select is_active_seat t.seats

unfoldable pub seated_count : TableRuntime → ℤ
seated_count t = pos (length (select (λ s. is_some s.player_id) t.seats))

abbrev pub is_running : TableStatus → Bool
is_running TableStatus.running = true
is_running _ = false

abbrev pub is_paused : TableStatus → Bool
is_paused TableStatus.paused = true
is_paused _ = false

unfoldable pub can_start_hand : TableRuntime → Bool
can_start_hand t = is_running t.status && leb 2 (length (active_seats t))

unfoldable pub start_session : TableRuntime → Result TableRuntime
start_session t =
    raise_if (ltb (length (active_seats t)) 2) DomainError.not_enough_active_players
    >> ok (record t { status = TableStatus.running })

unfoldable pub pause_session : TableRuntime → TableRuntime
pause_session t = record t { status = TableStatus.paused }

unfoldable pub resume_session : TableRuntime → Result TableRuntime
resume_session t =
    raise_if (not (is_paused t.status)) DomainError.session_not_paused
    >> ok (record t { status = TableStatus.running })

unfoldable pub finish_session : TableRuntime → TableRuntime
finish_session t = record t { status = TableStatus.finished }

-- A change of the first seat with a number: `_get_seat`, and the writes to the seat that it returns.
unfoldable pub change_seat :
    (TableSeat → Result TableSeat) → ℤ → List TableSeat → Result (List TableSeat)
change_seat change seat_number [] = err DomainError.seat_not_found
change_seat change seat_number (s ∷ seats) =
    let rest = change_seat change seat_number seats in
    if eqb_ℤ s.seat_number seat_number
    then (do s' ← change s; ok (s' ∷ seats))
    else (do seats' ← rest; ok (s ∷ seats'))

unfoldable pub leave_seat : TableSeat → Result TableSeat
leave_seat s =
    raise_if (not (is_active s.status)) DomainError.seat_not_active
    >> ok (record s { status = SeatStatus.sitting_out; hands_sat_out = pos 0 })

unfoldable pub rejoin_seat : TableSeat → Result TableSeat
rejoin_seat s =
    raise_if (not (is_sitting_out s.status)) DomainError.seat_not_sitting_out
    >> ok (record s { status = SeatStatus.active; hands_sat_out = pos 0 })

unfoldable pub sit_out : TableRuntime → ℤ → Result TableRuntime
sit_out t seat_number = do
  seats' ← change_seat leave_seat seat_number t.seats
  ok (record t { seats = seats' })

unfoldable pub sit_in : TableRuntime → ℤ → Result TableRuntime
sit_in t seat_number = do
  seats' ← change_seat rejoin_seat seat_number t.seats
  ok (record t { seats = seats' })

abbrev pub sit_hand_out : TableSeat → TableSeat
sit_hand_out s =
    if is_sitting_out s.status then record s { hands_sat_out = s.hands_sat_out +ℤ pos 1 } else s

unfoldable pub record_hand_completed : TableRuntime → TableRuntime
record_hand_completed t = record t {
  hands_played = t.hands_played +ℤ pos 1;
  blind_clock = record_hand t.blind_clock;
  seats = map sit_hand_out t.seats;
}

unfoldable pub next_hand_number : TableRuntime → ℤ
next_hand_number t = t.hands_played +ℤ pos 1
