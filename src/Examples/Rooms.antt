-- ===== src/Examples/Rooms.antt =====
-- A room from its code to its seats (services/room-service/app/application), and a settlement that is
-- explained and corrected.
use poker_room_backend.Prelude.{
  ℕ, ◌<◌, pos, ◌+ℤ◌, ◌≡◌, ◌≢◌, refl, String, false, some, none, List, [], ◌∷◌, map, All, arith,
  eq_iff, change_first,
}
use poker_room_backend.Room.Models.{Answer, ok, err, RoomRows, CreateRoom, JoinRoom, SeatAssignment}
use poker_room_backend.Room.Repository.{
  max_seat, get_next_seat_number, seat_number_exists_in_room, player_name_exists_in_room,
}
use poker_room_backend.Room.SeatHelpers.{
  resolve_join_seat, has_repeats, is_in_room, validate_seat_assignments,
}
use poker_room_backend.Room.Commands.{
  new_room, create_room, activate_room, join_room_by_code, reorder_seats, move_players,
}
use poker_room_backend.Room.Sound.{IsSoundRoom}
use poker_room_backend.Room.Laws.{
  activate, reorder, join, RoomRun, opened, after, RoomRun-IsSoundRoom,
}
use poker_room_backend.Room.Settled.{IsLater, RoomRun-IsLater}
use poker_room_backend.Room.Seating.{
  HasDistinctIds, HasDistinctSeats, Covers, IsSeatedAs, reorder_seats_lem,
}
use poker_room_backend.Room.Codes.{IsFresh, create_room_lem}

abbrev request : CreateRoom
request = record {
  name = none;
  max_players = pos 4;
  starting_chips = pos 100;
  antes_enabled = false;
  created_by = "host";
}

abbrev empty_room : RoomRows
empty_room = new_room "room" "AAAA" request

abbrev rows_of : RoomRows → Answer RoomRows → RoomRows
rows_of rows (ok rows') = rows'
rows_of rows (err m) = rows

abbrev named : String → JoinRoom
named player_name = record { player_name = player_name; seat_number = none }

abbrev one_player : RoomRows
one_player = rows_of empty_room (join_room_by_code "p1" (named "ann") (some empty_room))

abbrev two_players : RoomRows
two_players = rows_of one_player (join_room_by_code "p2" (named "bob") (some one_player))

-- The two change seats.
abbrev swap : List SeatAssignment
swap =
    record { player_id = "p1"; seat_number = pos 2 }
    ∷ record { player_id = "p2"; seat_number = pos 1 }
    ∷ []

abbrev swapped : RoomRows
swapped = rows_of two_players (reorder_seats swap (some two_players))

abbrev active_room : RoomRows
active_room = rows_of swapped (activate_room (some swapped))

room_runs :
    (join_room_by_code "p1" (named "ann") (some empty_room) ≡ ok one_player)
    × (join_room_by_code "p2" (named "bob") (some one_player) ≡ ok two_players)
    × (reorder_seats swap (some two_players) ≡ ok swapped)
    × (activate_room (some swapped) ≡ ok active_room)
unfolding join_room_by_code resolve_join_seat get_next_seat_number max_seat
    seat_number_exists_in_room player_name_exists_in_room reorder_seats validate_seat_assignments
    has_repeats is_in_room move_players change_first activate_room ◌+ℤ◌
room_runs = (refl, refl, refl, refl)

run : RoomRun empty_room active_room
run =
    after
      (after
        (after (after opened (join "p1" (named "ann") room_runs.0))
          (join "p2" (named "bob") room_runs.1))
        (reorder swap room_runs.2))
      (activate room_runs.3)

RoomRun-IsSoundRoom_example : IsSoundRoom active_room
RoomRun-IsSoundRoom_example =
    RoomRun-IsSoundRoom "room" "AAAA" request (omega arith) (omega arith) run

RoomRun-IsLater_example : IsLater empty_room active_room
RoomRun-IsLater_example = RoomRun-IsLater run

p1-ne-p2 : ◌≢◌ {A = String} "p1" "p2"
p1-ne-p2 e = ground (arith, (eq_iff "p1" "p2").1 e)

two-HasDistinctIds : HasDistinctIds two_players.players
unfolding join_room_by_code resolve_join_seat get_next_seat_number max_seat
    seat_number_exists_in_room player_name_exists_in_room ◌+ℤ◌
two-HasDistinctIds = ((p1-ne-p2, tt), (tt, tt))

reorder_seats_lem_example :
    All (λ a. All (IsSeatedAs a) swapped.players) swap
    × HasDistinctIds swapped.players
    × (Covers swap two_players.players → HasDistinctSeats swapped.players)
reorder_seats_lem_example = reorder_seats_lem swap two_players two-HasDistinctIds room_runs.2

create_room_lem_example :
    ((rows : RoomRows)
      → create_room "room" ("AAAA" ∷ []) (λ n. "BBBB") request ≡ some rows
      → IsFresh ("AAAA" ∷ []) rows.room.code)
    × ((n : ℕ)
        → n < 100
        → IsFresh ("AAAA" ∷ []) "BBBB"
        → (rows : RoomRows) × (create_room "room" ("AAAA" ∷ []) (λ n. "BBBB") request ≡ some rows))
create_room_lem_example = create_room_lem "room" ("AAAA" ∷ []) (λ n. "BBBB") request

-- A reordering of one of two players is accepted and puts both on the second seat.
abbrev only_first : List SeatAssignment
only_first = record { player_id = "p1"; seat_number = pos 2 } ∷ []

abbrev on_one_seat : RoomRows
on_one_seat = rows_of two_players (reorder_seats only_first (some two_players))

both_on_one_seat :
    (reorder_seats only_first (some two_players) ≡ ok on_one_seat)
    × (map (λ p. p.seat_number) on_one_seat.players ≡ pos 2 ∷ pos 2 ∷ [])
unfolding join_room_by_code resolve_join_seat get_next_seat_number max_seat
    seat_number_exists_in_room player_name_exists_in_room reorder_seats validate_seat_assignments
    has_repeats is_in_room move_players change_first ◌+ℤ◌
both_on_one_seat = (refl, refl)
