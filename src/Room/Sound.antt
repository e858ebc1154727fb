-- ===== src/Room/Sound.antt =====
-- What every command keeps of a room, and the players who join or change.
use poker_room_backend.Prelude.{
  ℤ, pos, ◌≤ℤ◌, ◌≡◌, ◌≢◌, refl, sym, ap, subst, ◌∙◌, String, Bool, true, false, not, Option, some,
  List, [], ◌∷◌, ◌++◌, map, arith, str_eq, eq_iff, eqb_ℤ, eqb_ℤ_iff, ltb_ℤ, leb_ℤ, length,
  length-append, select, is_some, change_first, All, All-map, All-append, All-change_first,
  All-select_none, length-change_first,
}
use poker_room_backend.Prelude.Distinct.{DistinctBy, DistinctBy-snoc, DistinctBy-change_first}
use poker_room_backend.Room.Models.{
  RoomStatus, RoomEventType, Answer, ok, ◌>>=◌, refuse_if-ok, >>=-ok, Room, RoomPlayer, BlindLevel,
  RoomRows, JoinRoom, SeatAssignment,
}
use poker_room_backend.Room.Repository.{
  scalar_one_or_none, count_players_in_room, player_name_exists_in_room, seat_number_exists_in_room,
}
use poker_room_backend.Room.SeatHelpers.{any, resolve_join_seat, seat_or_next}
use poker_room_backend.Room.Commands.{
  is_waiting, move_player, move_players, joined_player, join_room_by_code, add_room_event,
}

abbrev pub IsSeat : Room → RoomPlayer → Type 0
IsSeat room p = p.seat_number ≤ℤ room.max_players

-- A room: no more players than seats, each on a seat of the room, under different names and with chips
-- of 0 or more.
pub record IsSoundRoom (rows : RoomRows) : Type 0 where
  pub fits : pos (length rows.players) ≤ℤ rows.room.max_players
  pub seats : All (IsSeat rows.room) rows.players
  pub names : DistinctBy (λ p. p.player_name) rows.players
  pub chips : All (λ p. pos 0 ≤ℤ p.chip_count) rows.players
  pub starting_nonneg : pos 0 ≤ℤ rows.room.starting_chips

-- A query for one row that found none.
nothing_found :
    {A : Type 0} (p : A → Bool) (xs : List A)
    → (scalar_one_or_none (select p xs) >>= λ found. ok (is_some found)) ≡ ok false
    → All (λ x. p x ≡ false) xs
nothing_found p xs h = All-select_none p xs (empty (select p xs) h)
  where
    empty :
        {A : Type 0} (ys : List A)
        → (scalar_one_or_none ys >>= λ found. ok (is_some found)) ≡ ok false
        → ys ≡ []
    empty [] e = refl
    empty (y ∷ []) e = ground arith
    empty (y ∷ z ∷ ys) e = ground arith

name_free :
    (name : String) (players : List RoomPlayer)
    → player_name_exists_in_room name players ≡ ok false
    → All (λ p. p.player_name ≢ name) players
unfolding player_name_exists_in_room
name_free name players h =
    All-map (λ p miss e. differs p (rw ((eq_iff p.player_name name).1 e) at miss)) players
      (nothing_found (λ p. str_eq p.player_name name) players h)
  where
    differs : RoomPlayer → true ≡ false → ⊥
    differs p e = ground arith

seat_free :
    (seat : ℤ) (players : List RoomPlayer)
    → seat_number_exists_in_room seat players ≡ ok false
    → All (λ p. p.seat_number ≢ seat) players
unfolding seat_number_exists_in_room
seat_free seat players h =
    All-map (λ p miss e. differs p (rw ((eqb_ℤ_iff p.seat_number seat).1 e) at miss)) players
      (nothing_found (λ p. eqb_ℤ p.seat_number seat) players h)
  where
    differs : RoomPlayer → true ≡ false → ⊥
    differs p e = ground arith

-- A player who joined, by the guards of the command.
pub record Joined (player_id : String) (data' : JoinRoom) (rows rows' : RoomRows) : Type 0 where
  pub waiting : is_waiting rows.room.status ≡ true
  pub room_left : leb_ℤ rows.room.max_players (count_players_in_room rows.players) ≡ false
  pub new_name : All (λ p. p.player_name ≢ data'.player_name) rows.players
  pub seat_number : ℤ
  pub in_room : ltb_ℤ rows.room.max_players seat_number ≡ false
  pub new_seat : All (λ p. p.seat_number ≢ seat_number) rows.players
  pub result :
      rows'
      ≡ add_room_event RoomEventType.player_joined (record rows {
        players =
            rows.players ++ joined_player player_id rows.room data'.player_name seat_number ∷ [];
      })

resolve_join_seat-free :
    (room : Room) (players : List RoomPlayer) (requested : Option ℤ) {seat : ℤ}
    → resolve_join_seat room players requested ≡ ok seat
    → (ltb_ℤ room.max_players seat ≡ false) × All (λ p. p.seat_number ≢ seat) players
unfolding resolve_join_seat
resolve_join_seat-free room players requested {seat} h =
    let chosen = seat_or_next requested players in
    let (in_room, h1) = refuse_if-ok (ltb_ℤ room.max_players chosen) _ _ h in
    let (taken, exists, h2) = >>=-ok (seat_number_exists_in_room chosen players) _ h1 in
    let (free, h3) = refuse_if-ok taken _ _ h2 in
    subst (λ x. (ltb_ℤ room.max_players x ≡ false) × All (λ p. p.seat_number ≢ x) players) (same h3)
      (in_room, seat_free chosen players (exists ∙ ap ok free))
  where
    same : {a b : ℤ} → ◌≡◌ {A = Answer ℤ} (ok a) (ok b) → a ≡ b
    same e = cc

pub join_room_by_code-Joined :
    (player_id : String) (data' : JoinRoom) (rows : RoomRows) {rows' : RoomRows}
    → join_room_by_code player_id data' (some rows) ≡ ok rows'
    → Joined player_id data' rows rows'
unfolding join_room_by_code
join_room_by_code-Joined player_id data' rows {rows'} h =
    let (waiting, h1) = refuse_if-ok (not (is_waiting rows.room.status)) _ _ h in
    let (room_left, h2) =
      refuse_if-ok (leb_ℤ rows.room.max_players (count_players_in_room rows.players)) _ _ h1 in
    let (named, exists, h3) =
      >>=-ok (player_name_exists_in_room data'.player_name rows.players) _ h2 in
    let (free, h4) = refuse_if-ok named _ _ h3 in
    let (seat, resolved, h5) =
      >>=-ok (resolve_join_seat rows.room rows.players data'.seat_number) _ h4 in
    let (in_room, new_seat) =
      resolve_join_seat-free rows.room rows.players data'.seat_number resolved in
    record {
      waiting = ground arith;
      room_left = room_left;
      new_name = name_free data'.player_name rows.players (exists ∙ ap ok free);
      seat_number = seat;
      in_room = in_room;
      new_seat = new_seat;
      result = cc;
    }

-- A player who joins is another name on another seat of the room.
add_player-IsSoundRoom :
    (new : RoomPlayer) (t : RoomEventType) (rows : RoomRows)
    → leb_ℤ rows.room.max_players (count_players_in_room rows.players) ≡ false
    → IsSeat rows.room new
    → All (λ p. p.player_name ≢ new.player_name) rows.players
    → pos 0 ≤ℤ new.chip_count
    → IsSoundRoom rows
    → IsSoundRoom (add_room_event t (record rows { players = rows.players ++ new ∷ [] }))
add_player-IsSoundRoom new t rows room_left in_room new_name chips s = record {
  fits =
      subst (λ n. pos n ≤ℤ rows.room.max_players) (sym (length-append rows.players (new ∷ [])))
        (ground arith);
  seats = All-append (IsSeat rows.room) rows.players (new ∷ []) s.seats (in_room, tt);
  names = DistinctBy-snoc (λ p. p.player_name) rows.players new s.names new_name;
  chips = All-append (λ p. pos 0 ≤ℤ p.chip_count) rows.players (new ∷ []) s.chips (chips, tt);
  starting_nonneg = s.starting_nonneg;
}

pub Joined-IsSoundRoom :
    (player_id : String) (data' : JoinRoom) (rows : RoomRows) {rows' : RoomRows}
    → Joined player_id data' rows rows'
    → IsSoundRoom rows
    → IsSoundRoom rows'
Joined-IsSoundRoom player_id data' rows j s = subst IsSoundRoom (sym j.result) (
    add_player-IsSoundRoom (joined_player player_id rows.room data'.player_name j.seat_number)
      RoomEventType.player_joined rows j.room_left
      (seat_bound j.seat_number rows.room.max_players j.in_room) j.new_name s.starting_nonneg s)
  where
    seat_bound : (a b : ℤ) → ltb_ℤ b a ≡ false → a ≤ℤ b
    seat_bound a b h = ground arith

-- A change of one player, who keeps the name, a seat of the room and 0 chips or more.
pub change_first-IsSoundRoom :
    (p : RoomPlayer → Bool) (change : RoomPlayer → RoomPlayer) (rows : RoomRows)
    → ((x : RoomPlayer) → (change x).player_name ≡ x.player_name)
    → ((x : RoomPlayer) → IsSeat rows.room x → IsSeat rows.room (change x))
    → ((x : RoomPlayer) → pos 0 ≤ℤ x.chip_count → pos 0 ≤ℤ (change x).chip_count)
    → IsSoundRoom rows
    → IsSoundRoom (record rows { players = change_first p change rows.players })
change_first-IsSoundRoom p change rows name seat chips s = record {
  fits =
      subst (λ n. pos n ≤ℤ rows.room.max_players) (sym (length-change_first p change rows.players))
        s.fits;
  seats = All-change_first (IsSeat rows.room) p change rows.players seat s.seats;
  names = DistinctBy-change_first (λ x. x.player_name) p change rows.players name s.names;
  chips = All-change_first (λ x. pos 0 ≤ℤ x.chip_count) p change rows.players chips s.chips;
  starting_nonneg = s.starting_nonneg;
}

pub move_players-IsSoundRoom :
    (as' : List SeatAssignment) (rows : RoomRows)
    → All (λ a. a.seat_number ≤ℤ rows.room.max_players) as'
    → IsSoundRoom rows
    → IsSoundRoom (record rows { players = move_players as' rows.players })
unfolding move_players
move_players-IsSoundRoom [] rows h s = s
move_players-IsSoundRoom (a ∷ as') rows h s =
    move_players-IsSoundRoom as' (record rows { players = move_player a rows.players }) h.1
      (change_first-IsSoundRoom _ (λ p. record p { seat_number = a.seat_number }) rows (λ x. refl)
        (λ x _. h.0) (λ x c. c) s)

-- What no member passes.
none_of : {A : Type 0} (f : A → Bool) (xs : List A) → any f xs ≡ false → All (λ x. f x ≡ false) xs
none_of f [] h = tt
none_of f (x ∷ xs) h = (ground arith, none_of f xs (ground arith))

pub seats_in_room :
    (room : Room) (as' : List SeatAssignment)
    → any (λ seat. ltb_ℤ room.max_players seat) (map (λ a. a.seat_number) as') ≡ false
    → All (λ a. a.seat_number ≤ℤ room.max_players) as'
seats_in_room room [] h = tt
seats_in_room room (a ∷ as') h = (ground arith, seats_in_room room as' (ground arith))

-- The status, the dealer's seat, the levels and the events are free.
pub restated-IsSoundRoom :
    (status : RoomStatus) (dealer : ℤ) (levels : List BlindLevel) (events : List RoomEventType)
    (rows : RoomRows)
    → IsSoundRoom rows
    → IsSoundRoom (record rows {
      room = record rows.room { status = status; starting_dealer_seat = dealer };
      blind_levels = levels;
      events = events;
    })
restated-IsSoundRoom status dealer levels events rows s = record {
  fits = s.fits;
  seats = s.seats;
  names = s.names;
  chips = s.chips;
  starting_nonneg = s.starting_nonneg;
}
