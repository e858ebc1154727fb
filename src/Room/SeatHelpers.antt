-- ===== src/Room/SeatHelpers.antt =====
-- services/room-service/app/application/seat_helpers.py
use poker_room_backend.Prelude.{
  ℤ, pos, String, Bool, false, not, ◌||◌, Option, none, some, List, [], ◌∷◌, map, str_eq, eqb_ℤ,
  ltb_ℤ, if◌then◌else◌,
}
use poker_room_backend.Room.Models.{
  Room, RoomPlayer, SeatAssignment, ErrorMessage, Answer, ok, ◌>>=◌, ◌>>◌, refuse_if,
}
use poker_room_backend.Room.Repository.{get_next_seat_number, seat_number_exists_in_room}

-- `requested_seat or await get_next_seat_number(...)`
abbrev pub seat_or_next : Option ℤ → List RoomPlayer → ℤ
seat_or_next none players = get_next_seat_number players
seat_or_next (some seat) players = if eqb_ℤ seat (pos 0) then get_next_seat_number players else seat

unfoldable pub resolve_join_seat : Room → List RoomPlayer → Option ℤ → Answer ℤ
resolve_join_seat room players requested_seat = do
  let seat_number = seat_or_next requested_seat players
  refuse_if (ltb_ℤ room.max_players seat_number) ErrorMessage.invalid_seat
  taken ← seat_number_exists_in_room seat_number players
  refuse_if taken ErrorMessage.seat_taken
  ok seat_number

-- `any(f(x) for x in xs)`
abbrev pub any {ℓ} : {A : Type ℓ} → (A → Bool) → List A → Bool
any f [] = false
any f (x ∷ xs) = f x || any f xs

-- `len(set(xs)) != len(xs)`: a member comes again.
unfoldable pub has_repeats {ℓ} : {A : Type ℓ} → (A → A → Bool) → List A → Bool
has_repeats eq [] = false
has_repeats eq (x ∷ xs) = any (eq x) xs || has_repeats eq xs

-- `player_id in player_map`
unfoldable pub is_in_room : List RoomPlayer → String → Bool
is_in_room players player_id = any (λ p. str_eq p.player_id player_id) players

unfoldable pub validate_seat_assignments :
    Room → List SeatAssignment → List RoomPlayer → Answer (Unit {0})
validate_seat_assignments room assignments players = do
  let player_ids = map (λ a. a.player_id) assignments
  let seat_numbers = map (λ a. a.seat_number) assignments
  refuse_if (has_repeats str_eq player_ids) ErrorMessage.duplicate_player_assignment
  refuse_if (has_repeats eqb_ℤ seat_numbers) ErrorMessage.duplicate_seat_assignment
  refuse_if (any (λ seat. ltb_ℤ room.max_players seat) seat_numbers) ErrorMessage.invalid_seat
  refuse_if (any (λ player_id. not (is_in_room players player_id)) player_ids)
      ErrorMessage.player_not_in_room
