-- ===== src/Engine/TableRuntime/Laws.antt =====
-- The seats and the session of a table.
use poker_room_backend.Prelude.{
  ◌≤◌, ◌<◌, ℤ, pos, ◌≡◌, ◌⊎◌, inl, inr, refl, sym, ap, ◌∙◌, true, false, not, List, [], ◌∷◌, map,
  arith, Bool-cases, ltb, eqb_ℤ, length, select,
}
use poker_room_backend.Domain.Exceptions.{DomainError, ok, err, >>=-eq-ok, raise_if-eq-ok}
use poker_room_backend.Engine.TableRuntime.{
  SeatStatus, TableStatus, is_active, TableSeat, TableRuntime, is_active_seat, active_seats,
  can_start_hand, start_session, change_seat, leave_seat, rejoin_seat, sit_out, sit_in,
}

-- A session starts exactly with two active seats or more, and then a hand can start; with fewer it is
-- an error, and no hand can start.
pub start_session_lem :
    (t : TableRuntime)
    → ((2 ≤ length (active_seats t))
        × (start_session t ≡ ok (record t { status = TableStatus.running }))
        × (can_start_hand (record t { status = TableStatus.running }) ≡ true))
      ⊎ ((length (active_seats t) < 2)
          × (start_session t ≡ err DomainError.not_enough_active_players)
          × (can_start_hand t ≡ false))
unfolding start_session can_start_hand active_seats
start_session_lem t = elim (Bool-cases (ltb (length (active_seats t)) 2)) [
  | inl few ↦ inr (ground arith, rw few refl, ground arith)
  | inr enough ↦ inl (ground arith, rw enough refl, ground arith)
]

-- A seat without the count of the hands that were sat out.
abbrev pub forget_hands : TableSeat → TableSeat
forget_hands s = record s { hands_sat_out = pos 0 }

-- What taking a seat out and in again keeps.
abbrev pub IsSameTable : List TableSeat → List TableSeat → Type 0
IsSameTable seats'' seats =
    (map forget_hands seats'' ≡ map forget_hands seats)
    × (length (select is_active_seat seats'') ≡ length (select is_active_seat seats))

leave_seat_lem :
    (s s' : TableSeat)
    → leave_seat s ≡ ok s'
    → (s.status ≡ SeatStatus.active)
      × (s' ≡ record s { status = SeatStatus.sitting_out; hands_sat_out = pos 0 })
unfolding leave_seat
leave_seat_lem s s' h =
    let (active', e) = raise_if-eq-ok (not (is_active s.status)) _ _ h in
    (was_active s.status active', cc)
  where
    was_active : (st : SeatStatus) → not (is_active st) ≡ false → st ≡ SeatStatus.active
    was_active SeatStatus.active e = refl
    was_active SeatStatus.sitting_out e = ground arith
    was_active SeatStatus.empty e = ground arith

abbrev pub with_status : SeatStatus → TableSeat → TableSeat
with_status st s = record s { status = st; hands_sat_out = pos 0 }

left_back_here :
    (n : ℤ) (s : TableSeat) (seats : List TableSeat)
    → eqb_ℤ s.seat_number n ≡ true
    → s.status ≡ SeatStatus.active
    → (change_seat rejoin_seat n (with_status SeatStatus.sitting_out s ∷ seats)
        ≡ ok (with_status SeatStatus.active s ∷ seats))
      × IsSameTable (with_status SeatStatus.active s ∷ seats) (s ∷ seats)
unfolding change_seat rejoin_seat
left_back_here n s seats it active' = (
  rw it refl,
  (ap (λ st. forget_hands (with_status st s) ∷ map forget_hands seats) (sym active'), ground arith),
)

left_back_there :
    (n : ℤ) (s : TableSeat) (rest seats'' seats : List TableSeat)
    → eqb_ℤ s.seat_number n ≡ false
    → change_seat rejoin_seat n rest ≡ ok seats''
    → IsSameTable seats'' seats
    → (change_seat rejoin_seat n (s ∷ rest) ≡ ok (s ∷ seats''))
      × IsSameTable (s ∷ seats'') (s ∷ seats)
unfolding change_seat
left_back_there n s rest seats'' seats other back same =
    (rw (other, back) refl, (ap (λ xs. forget_hands s ∷ xs) same.0, ground (arith, same.1)))

-- A seat that is taken out can come back in, and the table is then as before, but for the hands that
-- the seat had sat out.
left_back :
    (n : ℤ) (seats seats' : List TableSeat)
    → change_seat leave_seat n seats ≡ ok seats'
    → (seats'' : List TableSeat) × (change_seat rejoin_seat n seats' ≡ ok seats'')
      × IsSameTable seats'' seats
unfolding change_seat
left_back n [] seats' h = ground arith
left_back n (s ∷ seats) seats' h = elim (Bool-cases (eqb_ℤ s.seat_number n)) [
  | inl it ↦
      let (s', left', e) = >>=-eq-ok (leave_seat s) (λ x. ok (x ∷ seats)) (rw it at h) in
      let (active', same_seat) = leave_seat_lem s s' left' in
      let now : seats' ≡ with_status SeatStatus.sitting_out s ∷ seats = cc in
      let (back, same) = left_back_here n s seats it active' in
      (with_status SeatStatus.active s ∷ seats, ap (change_seat rejoin_seat n) now ∙ back, same)
  | inr other ↦
      let (rest, changed, e) =
        >>=-eq-ok (change_seat leave_seat n seats) (λ x. ok (s ∷ x)) (rw other at h) in
      let (seats'', back, same) = left_back n seats rest changed in
      let now : seats' ≡ s ∷ rest = cc in
      let (back', same') = left_back_there n s rest seats'' seats other back same in
      (s ∷ seats'', ap (change_seat rejoin_seat n) now ∙ back', same')
]

-- A seat that sat out can sit in again. The table is then as it was, with the same number of active
-- seats, but for the count of hands that the seat has sat out.
pub sit_in-sit_out :
    (t : TableRuntime) (n : ℤ) {t' : TableRuntime}
    → sit_out t n ≡ ok t'
    → (t'' : TableRuntime) × (sit_in t' n ≡ ok t'')
      × (record t'' { seats = map forget_hands t''.seats }
          ≡ record t { seats = map forget_hands t.seats })
      × (length (active_seats t'') ≡ length (active_seats t))
unfolding sit_out sit_in active_seats
sit_in-sit_out t n {t'} h =
    let (seats', left', e) = >>=-eq-ok (change_seat leave_seat n t.seats) _ h in
    let (seats'', back, same) = left_back n t.seats seats' left' in
    let now : t' ≡ record t { seats = seats' } = cc in
    (
      record t { seats = seats'' },
      ap (λ u. sit_in u n) now ∙ rw (sit_in, back) refl,
      ap (λ xs. record t { seats = xs }) same.0,
      same.1,
    )
