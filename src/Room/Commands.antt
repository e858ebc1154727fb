-- ===== src/Room/Commands.antt =====
-- services/room-service/app/application/commands: `RoomCommandService` and `RoomPlayerCommandService`.
use poker_room_backend.Prelude.{
  ℕ, ℤ, pos, String, Bool, true, false, not, Option, none, some, List, [], ◌∷◌, ◌++◌, str_eq, leb_ℤ,
  if◌then◌else◌, select, change_first,
}
use poker_room_backend.Room.Models.{
  RoomStatus, RoomEventType, ErrorMessage, Answer, ok, err, ◌>>=◌, ◌>>◌, refuse_if, Room,
  RoomPlayer, RoomRows, CreateRoom, SetBlindStructure, JoinRoom, SeatAssignment,
}
use poker_room_backend.Room.Repository.{
  scalar_one_or_none, count_players_in_room, player_name_exists_in_room, generate_unique_code,
}
use poker_room_backend.Room.SeatHelpers.{resolve_join_seat, validate_seat_assignments}

abbrev pub is_waiting : RoomStatus → Bool
is_waiting RoomStatus.waiting = true
is_waiting _ = false

abbrev pub is_active_room : RoomStatus → Bool
is_active_room RoomStatus.active = true
is_active_room _ = false

abbrev pub is_finished_room : RoomStatus → Bool
is_finished_room RoomStatus.finished = true
is_finished_room _ = false

abbrev pub add_room_event : RoomEventType → RoomRows → RoomRows
add_room_event t rows = record rows { events = rows.events ++ t ∷ [] }

abbrev pub set_status : RoomStatus → RoomRows → RoomRows
set_status status rows = record rows { room = record rows.room { status = status } }

-- `fetch_or_404`, of the room
abbrev pub room_or_404 : ErrorMessage → Option RoomRows → Answer RoomRows
room_or_404 m none = err m
room_or_404 m (some rows) = ok rows

unfoldable pub activate_room : Option RoomRows → Answer RoomRows
activate_room found = do
  rows ← room_or_404 ErrorMessage.room_not_found found
  if is_active_room rows.room.status
      then ok rows
      else (refuse_if (not (is_waiting rows.room.status)) ErrorMessage.room_not_waiting
          >> ok (add_room_event RoomEventType.activated (set_status RoomStatus.active rows)))

unfoldable pub finish_room : Option RoomRows → Answer RoomRows
finish_room found = do
  rows ← room_or_404 ErrorMessage.room_not_found found
  if is_finished_room rows.room.status
      then ok rows
      else (refuse_if (not (is_active_room rows.room.status)) ErrorMessage.room_not_active
          >> ok (add_room_event RoomEventType.finished (set_status RoomStatus.finished rows)))

abbrev pub new_room : String → String → CreateRoom → RoomRows
new_room room_id code data' = record {
  room = record {
    room_id = room_id;
    code = code;
    name = data'.name;
    status = RoomStatus.waiting;
    max_players = data'.max_players;
    starting_chips = data'.starting_chips;
    antes_enabled = data'.antes_enabled;
    starting_dealer_seat = pos 1;
    created_by = data'.created_by;
  };
  players = [];
  blind_levels = [];
  events = RoomEventType.created ∷ [];
}

-- `codes` are those in the table; `none` is the error of `generate_unique_code`.
unfoldable pub create_room : String → List String → (ℕ → String) → CreateRoom → Option RoomRows
create_room room_id codes draw data' = elim (generate_unique_code codes 100 draw) [
  | none ↦ none
  | some code ↦ some (new_room room_id code data')
]

-- `player_map[player_id].seat_number = seat_number`
abbrev pub move_player : SeatAssignment → List RoomPlayer → List RoomPlayer
move_player a players =
    change_first (λ p. str_eq p.player_id a.player_id)
      (λ p. record p { seat_number = a.seat_number }) players

unfoldable pub move_players : List SeatAssignment → List RoomPlayer → List RoomPlayer
move_players [] players = players
move_players (a ∷ as') players = move_players as' (move_player a players)

unfoldable pub reorder_seats : List SeatAssignment → Option RoomRows → Answer RoomRows
reorder_seats assignments found = do
  rows ← room_or_404 ErrorMessage.room_not_found found
  refuse_if (not (is_waiting rows.room.status)) ErrorMessage.room_not_waiting
  _ ← validate_seat_assignments rows.room assignments rows.players
  ok (
      add_room_event RoomEventType.seats_reordered
        (record rows { players = move_players assignments rows.players }))

unfoldable pub set_blind_structure : SetBlindStructure → Option RoomRows → Answer RoomRows
set_blind_structure data' found = do
  rows ← room_or_404 ErrorMessage.room_not_found found
  refuse_if (not (is_waiting rows.room.status)) ErrorMessage.room_not_waiting
  ok (record rows {
    room = record rows.room { starting_dealer_seat = data'.starting_dealer_seat };
    blind_levels = data'.levels;
  })

-- Nothing is left of the room.
unfoldable pub delete_room : Option RoomRows → Answer (Option RoomRows)
delete_room found = do _ ← room_or_404 ErrorMessage.room_not_found found; ok none

abbrev pub joined_player : String → Room → String → ℤ → RoomPlayer
joined_player player_id room player_name seat_number = record {
  room_id = room.room_id;
  player_id = player_id;
  player_name = player_name;
  seat_number = seat_number;
  chip_count = room.starting_chips;
  is_active = true;
  is_eliminated = false;
}

-- `found` is the room with the code, in upper case.
unfoldable pub join_room_by_code : String → JoinRoom → Option RoomRows → Answer RoomRows
join_room_by_code player_id data' found = do
  rows ← room_or_404 ErrorMessage.invalid_code found
  refuse_if (not (is_waiting rows.room.status)) ErrorMessage.room_not_waiting
  refuse_if (leb_ℤ rows.room.max_players (count_players_in_room rows.players))
      ErrorMessage.room_full
  named ← player_name_exists_in_room data'.player_name rows.players
  refuse_if named ErrorMessage.duplicate_name
  seat_number ← resolve_join_seat rows.room rows.players data'.seat_number
  ok (
      add_room_event RoomEventType.player_joined (record rows {
        players =
            rows.players ++ joined_player player_id rows.room data'.player_name seat_number ∷ [];
      }))

-- `fetch_or_404`, of a player in the rows of the player's room, and the writes to that row
unfoldable pub change_player : String → (RoomPlayer → RoomPlayer) → RoomRows → Answer RoomRows
change_player player_id change rows = do
  found ← scalar_one_or_none (select (λ p. str_eq p.player_id player_id) rows.players)
  elim found [
    | none ↦ err ErrorMessage.player_not_found
    | some _ ↦ ok (record rows {
      players = change_first (λ p. str_eq p.player_id player_id) change rows.players;
    })
  ]

unfoldable pub update_player_chips : String → ℤ → RoomRows → Answer RoomRows
update_player_chips player_id chip_count rows = do
  rows' ← change_player player_id (λ p. record p { chip_count = chip_count }) rows
  ok (add_room_event RoomEventType.chips_updated rows')

abbrev pub eliminated : RoomPlayer → RoomPlayer
eliminated p = record p { is_eliminated = true; is_active = false; chip_count = pos 0 }

unfoldable pub eliminate_player : String → RoomRows → Answer RoomRows
eliminate_player player_id rows = do
  rows' ← change_player player_id eliminated rows
  ok (add_room_event RoomEventType.player_eliminated rows')
