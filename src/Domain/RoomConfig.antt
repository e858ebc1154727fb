-- ===== src/Domain/RoomConfig.antt =====
-- services/game-service/app/domain/integration/room_adapter.py: the snapshot of a room that a game
-- plays from.
use poker_room_backend.Prelude.{
  ℤ, pos, String, Bool, not, ◌&&◌, Option, List, map, ltb_ℤ, eqb_ℤ, select, find_first,
}
use poker_room_backend.Prelude.Sorting.{sorted}

pub record BlindLevelConfig : Type 0 where
  pub level : ℤ
  pub small_blind : ℤ
  pub big_blind : ℤ
  pub ante : ℤ
  pub duration_minutes : Option ℤ

pub record PlayerConfig : Type 0 where
  pub player_id : String
  pub seat_number : ℤ
  pub chip_count : ℤ
  pub is_active : Bool
  pub is_eliminated : Bool

pub record RoomConfig : Type 0 where
  pub room_id : String
  pub starting_dealer_seat : ℤ
  pub antes_enabled : Bool
  pub players : List PlayerConfig
  pub blind_levels : List BlindLevelConfig

abbrev pub is_playing : PlayerConfig → Bool
is_playing p = p.is_active && not p.is_eliminated && ltb_ℤ (pos 0) p.chip_count

unfoldable pub active_players : RoomConfig → List PlayerConfig
active_players c = sorted (λ p. p.seat_number) (select is_playing c.players)

unfoldable pub active_seats : RoomConfig → List ℤ
active_seats c = map (λ p. p.seat_number) (active_players c)

unfoldable pub blind_level : RoomConfig → ℤ → Option BlindLevelConfig
blind_level c level_num = find_first (λ bl. eqb_ℤ bl.level level_num) c.blind_levels
