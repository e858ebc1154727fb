-- ===== src/Room/Settled.antt =====
-- The life of a room: waiting, active, finished; its seats and blinds are settled once it stops waiting.
use poker_room_backend.Prelude.{
  ℕ, ◌≤◌, ℤ, ◌≡◌, refl, sym, ap, subst, ◌∙◌, String, Bool, true, false, not, List, map, arith, inl,
  inr, map-change_first,
}
use poker_room_backend.Room.Models.{
  RoomStatus, RoomEventType, ok, ◌>>=◌, refuse_if-ok, >>=-ok, RoomPlayer, RoomRows,
}
use poker_room_backend.Room.Commands.{
  is_waiting, is_active_room, change_player, eliminated, reorder_seats, set_blind_structure,
  add_room_event, update_player_chips, eliminate_player,
}
use poker_room_backend.Room.Sound.{join_room_by_code-Joined}
use poker_room_backend.Room.Laws.{
  RoomStep, activate, finish, reorder, blinds, join, set_chips, eliminate, RoomRun, opened, after,
  Moved, activate_room-Moved, finish_room-Moved, change_player-eq, answer_inj,
}

-- The order of the statuses.
abbrev pub rank : RoomStatus → ℕ
rank RoomStatus.waiting = 0
rank RoomStatus.active = 1
rank RoomStatus.finished = 2

abbrev pub seats_of : List RoomPlayer → List (String × ℤ)
seats_of = map (λ p. (p.player_id, p.seat_number))

-- A room later in its life. A room that waits no more has its players on their seats.
pub record IsLater (rows rows' : RoomRows) : Type 0 where
  pub on : rank rows.room.status ≤ rank rows'.room.status
  pub seats_kept :
      is_waiting rows.room.status ≡ false → seats_of rows'.players ≡ seats_of rows.players
  pub blinds_kept : is_waiting rows.room.status ≡ false → rows'.blind_levels ≡ rows.blind_levels

not_both : {b : Bool} {A : Type 0} → b ≡ true → b ≡ false → A
not_both e f = absurd (ground arith)

waits : (b : Bool) → not b ≡ false → b ≡ true
waits b e = ground arith

IsLater-refl : (rows : RoomRows) → IsLater rows rows
IsLater-refl rows = record { on = omega arith; seats_kept = λ _. refl; blinds_kept = λ _. refl }

-- A command that only a waiting room takes.
IsLater-waiting : (rows rows' : RoomRows) → is_waiting rows.room.status ≡ true → IsLater rows rows'
IsLater-waiting rows rows' w = record {
  on = first rows.room.status rows'.room.status w;
  seats_kept = λ e. not_both w e;
  blinds_kept = λ e. not_both w e;
}
  where
    first : (a b : RoomStatus) → is_waiting a ≡ true → rank a ≤ rank b
    first RoomStatus.waiting b h = omega arith
    first RoomStatus.active b h = ground arith
    first RoomStatus.finished b h = ground arith

finished-IsLater :
    (rows : RoomRows) {rows' : RoomRows}
    → Moved RoomStatus.finished RoomEventType.finished is_active_room rows rows'
    → IsLater rows rows'
finished-IsLater rows m = elim m.outcome [
  | inl (_, same) ↦ subst (IsLater rows) (sym same) (IsLater-refl rows)
  | inr (_, moved) ↦
      subst (IsLater rows) (sym moved)
        record { on = last rows.room.status; seats_kept = λ _. refl; blinds_kept = λ _. refl }
]
  where
    last : (a : RoomStatus) → rank a ≤ 2
    last RoomStatus.waiting = omega arith
    last RoomStatus.active = omega arith
    last RoomStatus.finished = omega arith

activated-IsLater :
    (rows : RoomRows) {rows' : RoomRows}
    → Moved RoomStatus.active RoomEventType.activated is_waiting rows rows'
    → IsLater rows rows'
activated-IsLater rows {rows'} m = elim m.outcome [
  | inl (_, same) ↦ subst (IsLater rows) (sym same) (IsLater-refl rows)
  | inr (waiting, _) ↦ IsLater-waiting rows rows' waiting
]

changed-IsLater :
    (player_id : String) (change : RoomPlayer → RoomPlayer) (t : RoomEventType) (rows : RoomRows)
    {rows' : RoomRows}
    → ((x : RoomPlayer)
        → ◌≡◌ {A = String × ℤ}
            ((change x).player_id, (change x).seat_number)
            (x.player_id, x.seat_number))
    → (change_player player_id change rows >>= λ r. ok (add_room_event t r)) ≡ ok rows'
    → IsLater rows rows'
changed-IsLater player_id change t rows seat h =
    let (r, changed, h1) = >>=-ok (change_player player_id change rows) _ h in
    subst (IsLater rows)
      (sym (answer_inj h1 ∙ ap (add_room_event t) (change_player-eq player_id change rows changed)))
      record {
        on = omega arith;
        seats_kept =
            λ _. map-change_first (λ p. (p.player_id, p.seat_number)) _ change rows.players seat;
        blinds_kept = λ _. refl;
      }

RoomStep-IsLater : {rows rows' : RoomRows} → RoomStep rows rows' → IsLater rows rows'
unfolding update_player_chips eliminate_player reorder_seats set_blind_structure
RoomStep-IsLater {rows} (activate h) = activated-IsLater rows (activate_room-Moved rows h)
RoomStep-IsLater {rows} (finish h) = finished-IsLater rows (finish_room-Moved rows h)
RoomStep-IsLater {rows} {rows'} (reorder as' h) =
    IsLater-waiting rows rows' (waits _ (refuse_if-ok (not (is_waiting rows.room.status)) _ _ h).0)
RoomStep-IsLater {rows} {rows'} (blinds data' h) =
    IsLater-waiting rows rows' (waits _ (refuse_if-ok (not (is_waiting rows.room.status)) _ _ h).0)
RoomStep-IsLater {rows} {rows'} (join player_id data' h) =
    IsLater-waiting rows rows' (join_room_by_code-Joined player_id data' rows h).waiting
RoomStep-IsLater {rows} (set_chips player_id chip_count nonneg h) =
    changed-IsLater player_id (λ p. record p { chip_count = chip_count })
      RoomEventType.chips_updated rows (λ x. refl) h
RoomStep-IsLater {rows} (eliminate player_id h) =
    changed-IsLater player_id eliminated RoomEventType.player_eliminated rows (λ x. refl) h

IsLater-trans : {a b c : RoomRows} → IsLater a b → IsLater b c → IsLater a c
IsLater-trans {a} {b} {c} p q = record {
  on = omega (arith, p.on, q.on);
  seats_kept = λ e. q.seats_kept (still a.room.status b.room.status e p.on) ∙ p.seats_kept e;
  blinds_kept = λ e. q.blinds_kept (still a.room.status b.room.status e p.on) ∙ p.blinds_kept e;
}
  where
    still : (a b : RoomStatus) → is_waiting a ≡ false → rank a ≤ rank b → is_waiting b ≡ false
    still a RoomStatus.active e le = refl
    still a RoomStatus.finished e le = refl
    still RoomStatus.waiting RoomStatus.waiting e le = ground arith
    still RoomStatus.active RoomStatus.waiting e le = ground arith
    still RoomStatus.finished RoomStatus.waiting e le = ground arith

-- After every sequence of accepted commands on a room, its status has not gone back from finished to
-- active or from active to waiting; and if it no longer waited at the start, its players are still on
-- the same seats and its blind levels are the same.
pub RoomRun-IsLater : {first rows : RoomRows} → RoomRun first rows → IsLater first rows
RoomRun-IsLater {first} opened = IsLater-refl first
RoomRun-IsLater (after run step) = IsLater-trans (RoomRun-IsLater run) (RoomStep-IsLater step)
