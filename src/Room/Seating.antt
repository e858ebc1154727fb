-- ===== src/Room/Seating.antt =====
-- Seats that no two players share: `join_room_by_code` keeps them so, and so does a reordering that
-- names every player (services/room-service/app/application).
use poker_room_backend.Prelude.{
  ◌≡◌, ◌≢◌, refl, sym, ap, subst, ◌∙◌, String, Bool, true, false, not, some, List, [], ◌∷◌, map,
  arith, inl, inr, Bool-cases, str_eq, eq_iff, eqb_ℤ, eqb_ℤ_iff, change_first, All, All-at, IsIn,
  here, there,
}
use poker_room_backend.Prelude.Distinct.{
  DistinctBy, DistinctBy-snoc, DistinctBy-change_first, DistinctBy-unique, DistinctBy-of,
}
use poker_room_backend.Room.Models.{
  ok, refuse_if-ok, >>=-ok, RoomPlayer, RoomRows, JoinRoom, SeatAssignment,
}
use poker_room_backend.Room.SeatHelpers.{any, has_repeats, validate_seat_assignments}
use poker_room_backend.Room.Commands.{
  is_waiting, move_player, move_players, joined_player, reorder_seats, join_room_by_code,
}
use poker_room_backend.Room.Sound.{join_room_by_code-Joined}
use poker_room_backend.Room.Laws.{answer_inj}

abbrev pub HasDistinctSeats : List RoomPlayer → Type 0
HasDistinctSeats = DistinctBy (λ p. p.seat_number)

abbrev pub HasDistinctIds : List RoomPlayer → Type 0
HasDistinctIds = DistinctBy (λ p. p.player_id)

-- Every player is named by an assignment.
abbrev pub Covers : List SeatAssignment → List RoomPlayer → Type 0
Covers as' players = All (λ p. any (λ a. str_eq a.player_id p.player_id) as' ≡ true) players

-- The player of the assignment sits where it says.
abbrev pub IsSeatedAs : SeatAssignment → RoomPlayer → Type 0
IsSeatedAs a p = p.player_id ≡ a.player_id → p.seat_number ≡ a.seat_number

abbrev move_to : SeatAssignment → RoomPlayer → RoomPlayer
move_to a p = record p { seat_number = a.seat_number }

none_equal :
    {A B : Type 0} (eq : B → B → Bool) (f : A → B) (x : A) (xs : List A)
    → ((b c : B) → b ≡ c → eq b c ≡ true)
    → any (eq (f x)) (map f xs) ≡ false
    → All (λ y. f x ≢ f y) xs
none_equal eq f x [] same h = tt
none_equal eq f x (y ∷ ys) same h =
    ((λ e. differs (same (f x) (f y) e)), none_equal eq f x ys same (ground arith))
  where
    differs : eq (f x) (f y) ≡ true → ⊥
    differs e = ground arith

no_repeats :
    {A B : Type 0} (eq : B → B → Bool) (f : A → B) (xs : List A)
    → ((b c : B) → b ≡ c → eq b c ≡ true)
    → has_repeats eq (map f xs) ≡ false
    → DistinctBy f xs
unfolding has_repeats
no_repeats eq f [] same h = tt
no_repeats eq f (x ∷ xs) same h =
    (none_equal eq f x xs same (ground arith), no_repeats eq f xs same (ground arith))

-- A move changes the one player that it names.
All-move_player :
    (P Q : RoomPlayer → Type 0) (a : SeatAssignment) (ps : List RoomPlayer)
    → HasDistinctIds ps
    → ((p : RoomPlayer) → P p → p.player_id ≡ a.player_id → Q (move_to a p))
    → ((p : RoomPlayer) → P p → p.player_id ≢ a.player_id → Q p)
    → All P ps
    → All Q (move_player a ps)
unfolding change_first
All-move_player P Q a [] d moved left h = tt
All-move_player P Q a (p ∷ ps) d moved left h = elim (Bool-cases (str_eq p.player_id a.player_id)) [
  | inl it ↦
      (let same = (eq_iff p.player_id a.player_id).0 it in
        rw it (moved p h.0 same, rest ps d.0 same h.1))
  | inr other ↦ rw other (
    left p h.0 (λ e. differs p (rw ((eq_iff p.player_id a.player_id).1 e) at other)),
    All-move_player P Q a ps d.1 moved left h.1,
  )
]
  where
    differs : RoomPlayer → true ≡ false → ⊥
    differs p e = ground arith

    rest :
        (qs : List RoomPlayer)
        → All (λ q. p.player_id ≢ q.player_id) qs
        → p.player_id ≡ a.player_id
        → All P qs
        → All Q qs
    rest [] ne same h = tt
    rest (q ∷ qs) ne same h = (left q h.0 (λ e. ne.0 (same ∙ sym e)), rest qs ne.1 same h.1)

ids-move_player :
    (a : SeatAssignment) (ps : List RoomPlayer)
    → HasDistinctIds ps
    → HasDistinctIds (move_player a ps)
ids-move_player a ps d = DistinctBy-change_first (λ p. p.player_id) _ (move_to a) ps (λ p. refl) d

ids-move_players :
    (as' : List SeatAssignment) (ps : List RoomPlayer)
    → HasDistinctIds ps
    → HasDistinctIds (move_players as' ps)
unfolding move_players
ids-move_players [] ps d = d
ids-move_players (a ∷ as') ps d = ids-move_players as' (move_player a ps) (ids-move_player a ps d)

-- Moves of others leave a player where an assignment has put them.
still_seated :
    (a : SeatAssignment) (as' : List SeatAssignment) (ps : List RoomPlayer)
    → HasDistinctIds ps
    → All (λ b. a.player_id ≢ b.player_id) as'
    → All (IsSeatedAs a) ps
    → All (IsSeatedAs a) (move_players as' ps)
unfolding move_players
still_seated a [] ps d ne h = h
still_seated a (b ∷ as') ps d ne h =
    still_seated a as' (move_player b ps) (ids-move_player b ps d) ne.1 (
      All-move_player (IsSeatedAs a) (IsSeatedAs a) b ps d (λ p _ it e. absurd (ne.0 (sym e ∙ it)))
        (λ p seated _. seated) h)

-- Every assignment is carried out.
move_players-seated :
    (as' : List SeatAssignment) (ps : List RoomPlayer)
    → HasDistinctIds ps
    → DistinctBy (λ a. a.player_id) as'
    → All (λ a. All (IsSeatedAs a) (move_players as' ps)) as'
unfolding move_players
move_players-seated [] ps d da = tt
move_players-seated (a ∷ as') ps d da = (
  still_seated a as' (move_player a ps) (ids-move_player a ps d) da.0 (
      All-move_player (λ _. Unit {0}) (IsSeatedAs a) a ps d (λ p _ it e. refl)
        (λ p _ ne e. absurd (ne e)) (units ps)),
  move_players-seated as' (move_player a ps) (ids-move_player a ps d) da.1,
)
  where
    units : (qs : List RoomPlayer) → All (λ _. Unit {0}) qs
    units [] = tt
    units (q ∷ qs) = (tt, units qs)

-- The assignment that names a player.
assignment_of :
    (player_id : String) (as' : List SeatAssignment)
    → any (λ a. str_eq a.player_id player_id) as' ≡ true
    → (a : SeatAssignment) × IsIn a as' × (a.player_id ≡ player_id)
assignment_of player_id [] h = ground arith
assignment_of player_id (a ∷ as') h = elim (Bool-cases (str_eq a.player_id player_id)) [
  | inl it ↦ (a, here as', (eq_iff a.player_id player_id).0 it)
  | inr other ↦
      (let (b, at, same) = assignment_of player_id as' (rw other at h) in (b, there a at, same))
]

Covers-move_players :
    (as' bs : List SeatAssignment) (ps : List RoomPlayer)
    → Covers as' ps
    → Covers as' (move_players bs ps)
unfolding move_players change_first
Covers-move_players as' [] ps h = h
Covers-move_players as' (b ∷ bs) ps h = Covers-move_players as' bs (move_player b ps) (covered ps h)
  where
    covered : (qs : List RoomPlayer) → Covers as' qs → Covers as' (move_player b qs)
    covered [] h = tt
    covered (q ∷ qs) h = elim (Bool-cases (str_eq q.player_id b.player_id)) [
      | inl it ↦ rw it h
      | inr other ↦ rw other (h.0, covered qs h.1)
    ]

-- Players who all sit where assignments on different seats say sit on different seats.
seated-HasDistinctSeats :
    (as' : List SeatAssignment) (ps : List RoomPlayer)
    → DistinctBy (λ a. a.seat_number) as'
    → HasDistinctIds ps
    → Covers as' ps
    → All (λ a. All (IsSeatedAs a) ps) as'
    → HasDistinctSeats ps
seated-HasDistinctSeats as' ps ds d covers seated =
    DistinctBy-of (λ p. p.player_id) (λ p. p.seat_number) Placed ps same_player
      (each ps covers (λ a at. All-at (λ b. All (IsSeatedAs b) ps) seated at)) d
  where
    Placed : RoomPlayer → Type 0
    Placed p =
        (a : SeatAssignment) × IsIn a as'
        × (a.player_id ≡ p.player_id)
        × (p.seat_number ≡ a.seat_number)

    same_player :
        (p q : RoomPlayer)
        → Placed p
        → Placed q
        → p.seat_number ≡ q.seat_number
        → p.player_id ≡ q.player_id
    same_player p q (a, i, pa, sa) (b, j, qb, sb) e =
        sym pa
        ∙ ap (λ c. c.player_id)
            (DistinctBy-unique (λ a. a.seat_number) as' ds i j (sym sa ∙ e ∙ sb))
        ∙ qb

    each :
        (qs : List RoomPlayer)
        → Covers as' qs
        → ((a : SeatAssignment) → IsIn a as' → All (IsSeatedAs a) qs)
        → All Placed qs
    each [] h k = tt
    each (q ∷ qs) h k =
        (let (a, at, same) = assignment_of q.player_id as' h.0 in
          ((a, at, same, (k a at).0 (sym same)), each qs h.1 (λ b j. (k b j).1)))

-- A reordering that is accepted in a room whose players have different ids leaves them different ids
-- and puts each player that an assignment names on the seat of the assignment; where the assignments
-- name every player, no two players share a seat.
pub reorder_seats_lem :
    (as' : List SeatAssignment) (rows : RoomRows) {rows' : RoomRows}
    → HasDistinctIds rows.players
    → reorder_seats as' (some rows) ≡ ok rows'
    → All (λ a. All (IsSeatedAs a) rows'.players) as'
      × HasDistinctIds rows'.players
      × (Covers as' rows.players → HasDistinctSeats rows'.players)
unfolding reorder_seats validate_seat_assignments
reorder_seats_lem as' rows {rows'} d h =
    let (_, h1) = refuse_if-ok (not (is_waiting rows.room.status)) _ _ h in
    let (_, valid, h2) = >>=-ok (validate_seat_assignments rows.room as' rows.players) _ h1 in
    let player_ids = map (λ (a : SeatAssignment). a.player_id) as' in
    let seat_numbers = map (λ (a : SeatAssignment). a.seat_number) as' in
    let (one_each, v1) = refuse_if-ok (has_repeats str_eq player_ids) _ _ valid in
    let (one_seat, _) = refuse_if-ok (has_repeats eqb_ℤ seat_numbers) _ _ v1 in
    let da = no_repeats str_eq (λ a. a.player_id) as' (λ b c e. (eq_iff b c).1 e) one_each in
    let ds = no_repeats eqb_ℤ (λ a. a.seat_number) as' (λ b c e. (eqb_ℤ_iff b c).1 e) one_seat in
    let seated = move_players-seated as' rows.players d da in
    let ids = ids-move_players as' rows.players d in
    subst
      (λ ps.
        All (λ a. All (IsSeatedAs a) ps) as'
        × HasDistinctIds ps
        × (Covers as' rows.players → HasDistinctSeats ps))
      (sym (ap (λ r. r.players) (answer_inj h2)))
      (
        seated,
        ids,
        λ covers.
            seated-HasDistinctSeats as' (move_players as' rows.players) ds ids
              (Covers-move_players as' as' rows.players covers) seated,
      )

-- Under players on different seats, a player who joins takes a seat that was free.
pub join_room_by_code-HasDistinctSeats :
    (player_id : String) (data' : JoinRoom) (rows : RoomRows) {rows' : RoomRows}
    → HasDistinctSeats rows.players
    → join_room_by_code player_id data' (some rows) ≡ ok rows'
    → HasDistinctSeats rows'.players
join_room_by_code-HasDistinctSeats player_id data' rows d h =
    let j = join_room_by_code-Joined player_id data' rows h in
    subst HasDistinctSeats (sym (ap (λ r. r.players) j.result)) (
      DistinctBy-snoc (λ p. p.seat_number) rows.players
        (joined_player player_id rows.room data'.player_name j.seat_number) d j.new_seat)
