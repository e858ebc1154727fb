-- ===== src/Room/Repository.antt =====
-- services/room-service/app/infrastructure/repositories, on the rows of one room.
use poker_room_backend.Prelude.{
  ℤ, pos, ◌+ℤ◌, String, Bool, Option, none, some, List, [], ◌∷◌, str_eq, eqb_ℤ, length, select,
  is_some, max_ℤ, ℕ, zero, suc,
}
use poker_room_backend.Prelude.Sorting.{sorted}
use poker_room_backend.Room.Models.{RoomPlayer, BlindLevel, ErrorMessage, Answer, ok, err, ◌>>=◌}

-- `res.scalar_one_or_none()`
abbrev pub scalar_one_or_none {ℓ} : {A : Type ℓ} → List A → Answer (Option A)
scalar_one_or_none [] = ok none
scalar_one_or_none (x ∷ []) = ok (some x)
scalar_one_or_none (x ∷ y ∷ ys) = err ErrorMessage.multiple_results_found

abbrev pub get_players_in_room : List RoomPlayer → List RoomPlayer
get_players_in_room = sorted (λ p. p.seat_number)

abbrev pub count_players_in_room : List RoomPlayer → ℤ
count_players_in_room players = pos (length players)

-- `select(func.max(RoomPlayer.seat_number))`
unfoldable pub max_seat : List RoomPlayer → Option ℤ
max_seat [] = none
max_seat (p ∷ ps) = elim (max_seat ps) [
  | none ↦ some p.seat_number
  | some seat ↦ some (max_ℤ p.seat_number seat)
]

-- `(max_seat or 0) + 1`
unfoldable pub get_next_seat_number : List RoomPlayer → ℤ
get_next_seat_number players = elim (max_seat players) [ none ↦ pos 1 | some seat ↦ seat +ℤ pos 1 ]

unfoldable pub seat_number_exists_in_room : ℤ → List RoomPlayer → Answer Bool
seat_number_exists_in_room seat_number players = do
  found ← scalar_one_or_none (select (λ p. eqb_ℤ p.seat_number seat_number) players)
  ok (is_some found)

unfoldable pub player_name_exists_in_room : String → List RoomPlayer → Answer Bool
player_name_exists_in_room player_name players = do
  found ← scalar_one_or_none (select (λ p. str_eq p.player_name player_name) players)
  ok (is_some found)

-- `generate_unique_code`, on the codes in the table; `draw n` is the code that `secrets.choice` gives
-- with n attempts left.
-- `none` is the error after the attempts are used up; the source has 100 of them.
unfoldable pub generate_unique_code : List String → ℕ → (ℕ → String) → Option String
generate_unique_code codes zero draw = none
generate_unique_code codes (suc attempts) draw =
    let rest = generate_unique_code codes attempts draw in
    elim (select (λ c. str_eq c (draw attempts)) codes) [ [] ↦ some (draw attempts) | _ ∷ _ ↦ rest ]

unfoldable pub get_blind_levels : List BlindLevel → List BlindLevel
get_blind_levels = sorted (λ bl. bl.level)
