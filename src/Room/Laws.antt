-- ===== src/Room/Laws.antt =====
-- Every command on a room, and every sequence of them.
use poker_room_backend.Prelude.{
  ℤ, pos, ◌≤ℤ◌, ◌≡◌, ◌⊎◌, refl, sym, ap, subst, ◌∙◌, String, Bool, true, false, not, Option, none,
  some, List, [], ◌∷◌, ◌++◌, map, arith, inl, inr, Bool-cases, str_eq, eqb_ℤ, ltb_ℤ, select,
  change_first,
}
use poker_room_backend.Room.Models.{
  RoomStatus, RoomEventType, ErrorMessage, Answer, ok, err, ◌>>=◌, refuse_if-ok, >>=-ok, RoomPlayer,
  RoomRows, CreateRoom, SetBlindStructure, JoinRoom, SeatAssignment,
}
use poker_room_backend.Room.Repository.{scalar_one_or_none}
use poker_room_backend.Room.SeatHelpers.{any, validate_seat_assignments, has_repeats}
use poker_room_backend.Room.Commands.{
  is_waiting, is_active_room, is_finished_room, move_players, change_player, eliminated, new_room,
  activate_room, finish_room, reorder_seats, set_blind_structure, join_room_by_code,
  update_player_chips, eliminate_player, add_room_event, set_status,
}
use poker_room_backend.Room.Sound.{
  IsSoundRoom, join_room_by_code-Joined, Joined-IsSoundRoom, change_first-IsSoundRoom,
  move_players-IsSoundRoom, seats_in_room, restated-IsSoundRoom,
}

-- One accepted command on a room, with a request that passes its schema.
pub data RoomStep (rows rows' : RoomRows) : Type 0 where
  activate : activate_room (some rows) ≡ ok rows' → RoomStep rows rows'
  finish : finish_room (some rows) ≡ ok rows' → RoomStep rows rows'
  reorder :
      (as' : List SeatAssignment) → reorder_seats as' (some rows) ≡ ok rows' → RoomStep rows rows'
  blinds :
      (data' : SetBlindStructure)
      → set_blind_structure data' (some rows) ≡ ok rows'
      → RoomStep rows rows'
  join :
      (player_id : String) (data' : JoinRoom)
      → join_room_by_code player_id data' (some rows) ≡ ok rows'
      → RoomStep rows rows'
  set_chips :
      (player_id : String) (chip_count : ℤ)
      → pos 0 ≤ℤ chip_count
      → update_player_chips player_id chip_count rows ≡ ok rows'
      → RoomStep rows rows'
  eliminate :
      (player_id : String) → eliminate_player player_id rows ≡ ok rows' → RoomStep rows rows'

-- An accepted change of the status: already there, or a move from the one status that allows it.
pub record Moved (status : RoomStatus) (t : RoomEventType) (before : RoomStatus → Bool)
    (rows rows' : RoomRows) : Type 0 where
  pub outcome :
      ((rows.room.status ≡ status) × (rows' ≡ rows))
      ⊎ ((before rows.room.status ≡ true) × (rows' ≡ add_room_event t (set_status status rows)))

pub activate_room-Moved :
    (rows : RoomRows) {rows' : RoomRows}
    → activate_room (some rows) ≡ ok rows'
    → Moved RoomStatus.active RoomEventType.activated is_waiting rows rows'
unfolding activate_room
activate_room-Moved rows {rows'} h = elim (Bool-cases (is_active_room rows.room.status)) [
  | inl there ↦ record { outcome = inl (named rows.room.status there, kept (rw there at h)) }
  | inr not_there ↦
      (let (waiting, h1) =
          refuse_if-ok (not (is_waiting rows.room.status)) _ _ (rw not_there at h) in
        record { outcome = inr (negated (is_waiting rows.room.status) waiting, moved h1) })
]
  where
    named : (status : RoomStatus) → is_active_room status ≡ true → status ≡ RoomStatus.active
    named RoomStatus.waiting e = ground arith
    named RoomStatus.active e = refl
    named RoomStatus.finished e = ground arith

    kept : ◌≡◌ {A = Answer RoomRows} (ok rows) (ok rows') → rows' ≡ rows
    kept e = cc

    moved : {x : RoomRows} → ◌≡◌ {A = Answer RoomRows} (ok x) (ok rows') → rows' ≡ x
    moved e = cc

    negated : (b : Bool) → not b ≡ false → b ≡ true
    negated b e = ground arith

pub finish_room-Moved :
    (rows : RoomRows) {rows' : RoomRows}
    → finish_room (some rows) ≡ ok rows'
    → Moved RoomStatus.finished RoomEventType.finished is_active_room rows rows'
unfolding finish_room
finish_room-Moved rows {rows'} h = elim (Bool-cases (is_finished_room rows.room.status)) [
  | inl there ↦ record { outcome = inl (named rows.room.status there, kept (rw there at h)) }
  | inr not_there ↦
      (let (active, h1) =
          refuse_if-ok (not (is_active_room rows.room.status)) _ _ (rw not_there at h) in
        record { outcome = inr (negated (is_active_room rows.room.status) active, moved h1) })
]
  where
    named : (status : RoomStatus) → is_finished_room status ≡ true → status ≡ RoomStatus.finished
    named RoomStatus.waiting e = ground arith
    named RoomStatus.active e = ground arith
    named RoomStatus.finished e = refl

    kept : ◌≡◌ {A = Answer RoomRows} (ok rows) (ok rows') → rows' ≡ rows
    kept e = cc

    moved : {x : RoomRows} → ◌≡◌ {A = Answer RoomRows} (ok x) (ok rows') → rows' ≡ x
    moved e = cc

    negated : (b : Bool) → not b ≡ false → b ≡ true
    negated b e = ground arith

-- The change of one player, and the event that tells of it.
pub change_player-eq :
    (player_id : String) (change : RoomPlayer → RoomPlayer) (rows : RoomRows) {rows' : RoomRows}
    → change_player player_id change rows ≡ ok rows'
    → rows' ≡ record rows {
      players = change_first (λ p. str_eq p.player_id player_id) change rows.players;
    }
unfolding change_player
change_player-eq player_id change rows {rows'} h =
    let (found, _, h1) =
      >>=-ok (scalar_one_or_none (select (λ p. str_eq p.player_id player_id) rows.players)) _ h in
    known found h1
  where
    known :
        (found : Option RoomPlayer)
        → (elim found as (λ _. Answer RoomRows) [
          | none ↦ err ErrorMessage.player_not_found
          | some _ ↦ ok (record rows {
            players = change_first (λ p. str_eq p.player_id player_id) change rows.players;
          })
        ])
          ≡ ok rows'
        → rows' ≡ record rows {
          players = change_first (λ p. str_eq p.player_id player_id) change rows.players;
        }
    known none e = ground arith
    known (some _) e = cc

pub answer_inj : {x y : RoomRows} → ◌≡◌ {A = Answer RoomRows} (ok x) (ok y) → y ≡ x
answer_inj e = cc

changed-IsSoundRoom :
    (player_id : String) (change : RoomPlayer → RoomPlayer) (t : RoomEventType) (rows : RoomRows)
    {rows' : RoomRows}
    → ((x : RoomPlayer) → (change x).player_name ≡ x.player_name)
    → ((x : RoomPlayer) → (change x).seat_number ≡ x.seat_number)
    → ((x : RoomPlayer) → pos 0 ≤ℤ x.chip_count → pos 0 ≤ℤ (change x).chip_count)
    → (change_player player_id change rows >>= λ r. ok (add_room_event t r)) ≡ ok rows'
    → IsSoundRoom rows
    → IsSoundRoom rows'
changed-IsSoundRoom player_id change t rows name seat chips h s =
    let (r, changed, h1) = >>=-ok (change_player player_id change rows) _ h in
    let sound =
      change_first-IsSoundRoom (λ p. str_eq p.player_id player_id) change rows name
        (λ x b. subst (λ n. n ≤ℤ rows.room.max_players) (sym (seat x)) b) chips s in
    subst IsSoundRoom
      (sym (answer_inj h1 ∙ ap (add_room_event t) (change_player-eq player_id change rows changed)))
      (restated-IsSoundRoom rows.room.status rows.room.starting_dealer_seat rows.blind_levels
        (rows.events ++ t ∷ [])
        (record rows {
          players = change_first (λ p. str_eq p.player_id player_id) change rows.players;
        })
        sound)

reorder_seats-IsSoundRoom :
    (as' : List SeatAssignment) (rows : RoomRows) {rows' : RoomRows}
    → reorder_seats as' (some rows) ≡ ok rows'
    → IsSoundRoom rows
    → IsSoundRoom rows'
unfolding reorder_seats validate_seat_assignments
reorder_seats-IsSoundRoom as' rows h s =
    let (_, h1) = refuse_if-ok (not (is_waiting rows.room.status)) _ _ h in
    let (_, valid, h2) = >>=-ok (validate_seat_assignments rows.room as' rows.players) _ h1 in
    let player_ids = map (λ (a : SeatAssignment). a.player_id) as' in
    let seat_numbers = map (λ (a : SeatAssignment). a.seat_number) as' in
    let (_, v1) = refuse_if-ok (has_repeats str_eq player_ids) _ _ valid in
    let (_, v2) = refuse_if-ok (has_repeats eqb_ℤ seat_numbers) _ _ v1 in
    let (in_room, _) =
      refuse_if-ok (any (λ seat. ltb_ℤ rows.room.max_players seat) seat_numbers) _ _ v2 in
    subst IsSoundRoom (sym (answer_inj h2)) (
      restated-IsSoundRoom rows.room.status rows.room.starting_dealer_seat rows.blind_levels
        (rows.events ++ RoomEventType.seats_reordered ∷ [])
        (record rows { players = move_players as' rows.players })
        (move_players-IsSoundRoom as' rows (seats_in_room rows.room as' in_room) s))

Moved-IsSoundRoom :
    (status : RoomStatus) (t : RoomEventType) (before : RoomStatus → Bool) (rows : RoomRows)
    {rows' : RoomRows}
    → Moved status t before rows rows'
    → IsSoundRoom rows
    → IsSoundRoom rows'
Moved-IsSoundRoom status t before rows m s = elim m.outcome [
  | inl (_, same) ↦ subst IsSoundRoom (sym same) s
  | inr (_, moved) ↦ subst IsSoundRoom (sym moved) (
      restated-IsSoundRoom status rows.room.starting_dealer_seat rows.blind_levels
        (rows.events ++ t ∷ []) rows s)
]

set_blind_structure-IsSoundRoom :
    (data' : SetBlindStructure) (rows : RoomRows) {rows' : RoomRows}
    → set_blind_structure data' (some rows) ≡ ok rows'
    → IsSoundRoom rows
    → IsSoundRoom rows'
unfolding set_blind_structure
set_blind_structure-IsSoundRoom data' rows h s =
    let (_, h1) = refuse_if-ok (not (is_waiting rows.room.status)) _ _ h in
    subst IsSoundRoom (sym (answer_inj h1)) (
      restated-IsSoundRoom rows.room.status data'.starting_dealer_seat data'.levels rows.events rows
        s)

-- Every accepted command keeps a room sound.
RoomStep-IsSoundRoom :
    {rows rows' : RoomRows} → RoomStep rows rows' → IsSoundRoom rows → IsSoundRoom rows'
unfolding update_player_chips eliminate_player
RoomStep-IsSoundRoom {rows} (activate h) s =
    Moved-IsSoundRoom RoomStatus.active RoomEventType.activated is_waiting rows
      (activate_room-Moved rows h) s
RoomStep-IsSoundRoom {rows} (finish h) s =
    Moved-IsSoundRoom RoomStatus.finished RoomEventType.finished is_active_room rows
      (finish_room-Moved rows h) s
RoomStep-IsSoundRoom {rows} (reorder as' h) s = reorder_seats-IsSoundRoom as' rows h s
RoomStep-IsSoundRoom {rows} (blinds data' h) s = set_blind_structure-IsSoundRoom data' rows h s
RoomStep-IsSoundRoom {rows} (join player_id data' h) s =
    Joined-IsSoundRoom player_id data' rows (join_room_by_code-Joined player_id data' rows h) s
RoomStep-IsSoundRoom {rows} (set_chips player_id chip_count nonneg h) s =
    changed-IsSoundRoom player_id (λ p. record p { chip_count = chip_count })
      RoomEventType.chips_updated rows (λ x. refl) (λ x. refl) (λ x _. nonneg) h s
RoomStep-IsSoundRoom {rows} (eliminate player_id h) s =
    changed-IsSoundRoom player_id eliminated RoomEventType.player_eliminated rows (λ x. refl)
      (λ x. refl) (λ x _. omega arith) h s

-- The rooms that commands reach from a new one.
pub data RoomRun (first : RoomRows) : RoomRows → Type 0 where
  opened : RoomRun first first
  after : {rows rows' : RoomRows} → RoomRun first rows → RoomStep rows rows' → RoomRun first rows'

new_room-IsSoundRoom :
    (room_id code : String) (data' : CreateRoom)
    → pos 0 ≤ℤ data'.max_players
    → pos 0 ≤ℤ data'.starting_chips
    → IsSoundRoom (new_room room_id code data')
new_room-IsSoundRoom room_id code data' size chips = record {
  fits = size;
  seats = tt;
  names = tt;
  chips = tt;
  starting_nonneg = chips;
}

-- In every room that was made with a capacity and starting chips of 0 or more, after every sequence of
-- accepted commands, of which none sets a negative chip count: there are no more players than the
-- capacity, each sits on a seat no higher than it, no two have the same name, and no chip count is
-- negative.
pub RoomRun-IsSoundRoom :
    (room_id code : String) (data' : CreateRoom) {rows : RoomRows}
    → pos 0 ≤ℤ data'.max_players
    → pos 0 ≤ℤ data'.starting_chips
    → RoomRun (new_room room_id code data') rows
    → IsSoundRoom rows
RoomRun-IsSoundRoom room_id code data' size chips opened =
    new_room-IsSoundRoom room_id code data' size chips
RoomRun-IsSoundRoom room_id code data' size chips (after run step) =
    RoomStep-IsSoundRoom step (RoomRun-IsSoundRoom room_id code data' size chips run)
