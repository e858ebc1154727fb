-- ===== src/Room/Models.antt =====
-- services/room-service/app/domain/models.py, domain/constants.py and the requests of
-- shared/schemas/rooms.py.
use poker_room_backend.Prelude.{ℤ, ◌≡◌, refl, String, Bool, true, false, Option, List}

pub data RoomStatus : Type 0 where
  waiting active finished : RoomStatus

pub data RoomEventType : Type 0 where
  created activated finished player_joined player_eliminated chips_updated : RoomEventType
  seats_reordered : RoomEventType

-- The errors of the service, by their messages, and the fault of a query for one row that finds two.
pub data ErrorMessage : Type 0 where
  room_not_found player_not_found room_full room_not_waiting room_not_active : ErrorMessage
  invalid_code duplicate_name seat_taken invalid_seat duplicate_seat_assignment : ErrorMessage
  duplicate_player_assignment player_not_in_room multiple_results_found : ErrorMessage

-- What a handler answers.
pub data Answer {ℓ} (A : Type ℓ) : Type ℓ where
  ok : A → Answer A
  err : ErrorMessage → Answer A

-- `if test: raise HTTPException(...)`
abbrev pub refuse_if : Bool → ErrorMessage → Answer (Unit {0})
refuse_if false m = ok tt
refuse_if true m = err m

infixl 5 ◌>>=◌
abbrev pub ◌>>=◌ {ℓ κ} : {X : Type ℓ} {Y : Type κ} → Answer X → (X → Answer Y) → Answer Y
ok x >>= k = k x
err m >>= k = err m

infixl 5 ◌>>◌
abbrev pub ◌>>◌ {ℓ} : {Y : Type ℓ} → Answer (Unit {0}) → Answer Y → Answer Y
a >> b = a >>= λ _. b

pub refuse_if-ok {ℓ} :
    {Y : Type ℓ} (test : Bool) (m : ErrorMessage) (b : Answer Y) {y : Y}
    → (refuse_if test m >> b) ≡ ok y
    → (test ≡ false) × (b ≡ ok y)
refuse_if-ok false m b h = (refl, h)
refuse_if-ok true m b h = cc

pub >>=-ok {ℓ κ} :
    {X : Type ℓ} {Y : Type κ} (a : Answer X) (k : X → Answer Y) {y : Y}
    → (a >>= k) ≡ ok y
    → (x : X) × (a ≡ ok x) × (k x ≡ ok y)
>>=-ok (ok x) k h = (x, refl, h)
>>=-ok (err m) k h = cc

pub record Room : Type 0 where
  pub room_id : String
  pub code : String
  pub name : Option String
  pub status : RoomStatus
  pub max_players : ℤ
  pub starting_chips : ℤ
  pub antes_enabled : Bool
  pub starting_dealer_seat : ℤ
  pub created_by : String

pub record RoomPlayer : Type 0 where
  pub room_id : String
  pub player_id : String
  pub player_name : String
  pub seat_number : ℤ
  pub chip_count : ℤ
  pub is_active : Bool
  pub is_eliminated : Bool

pub record BlindLevel : Type 0 where
  pub level : ℤ
  pub small_blind : ℤ
  pub big_blind : ℤ
  pub ante : ℤ
  pub duration_minutes : ℤ

pub record RoomRows : Type 0 where
  pub room : Room
  pub players : List RoomPlayer
  pub blind_levels : List BlindLevel
  pub events : List RoomEventType

pub record CreateRoom : Type 0 where
  pub name : Option String
  pub max_players : ℤ
  pub starting_chips : ℤ
  pub antes_enabled : Bool
  pub created_by : String

pub record SetBlindStructure : Type 0 where
  pub levels : List BlindLevel
  pub starting_dealer_seat : ℤ

pub record JoinRoom : Type 0 where
  pub player_name : String
  pub seat_number : Option ℤ

pub record SeatAssignment : Type 0 where
  pub player_id : String
  pub seat_number : ℤ
