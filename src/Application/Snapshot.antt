-- ===== src/Application/Snapshot.antt =====
-- The snapshot of a room that a game keeps
-- (services/game-service/app/infrastructure/room_config.py). The rows of one game's snapshot are the
-- `RoomConfig` that they make; a read puts players and levels in order.
pub mod Laws
use poker_room_backend.Prelude.{
  ℤ, pos, String, Bool, List, [], ◌∷◌, map, str_eq, ltb_ℤ, leb_ℤ, max_ℤ, select, change_first,
}
use poker_room_backend.Prelude.Sorting.{sorted}
use poker_room_backend.Domain.Models.{RoundPlayer}
use poker_room_backend.Domain.RoomConfig.{BlindLevelConfig, PlayerConfig, RoomConfig, is_playing}

-- `load_room_snapshot` of the rows that `save_room_snapshot` wrote
unfoldable pub load_room_snapshot : RoomConfig → RoomConfig
load_room_snapshot snapshot = record snapshot {
  players = sorted (λ p. p.seat_number) snapshot.players;
  blind_levels = sorted (λ bl. bl.level) snapshot.blind_levels;
}

-- The writes to the snapshot of one player of the round.
abbrev pub sync_player : RoundPlayer → PlayerConfig → PlayerConfig
sync_player rp p =
    let chip_count = max_ℤ rp.stack_remaining (pos 0) in
    record p {
      chip_count = chip_count;
      is_active = ltb_ℤ (pos 0) chip_count;
      is_eliminated = leb_ℤ chip_count (pos 0);
    }

-- The loop over the players of the round; a player is in the snapshot of a game once.
unfoldable pub sync_players : List RoundPlayer → List PlayerConfig → List PlayerConfig
sync_players [] players = players
sync_players (rp ∷ rps) players =
    sync_players rps (change_first (λ p. str_eq p.player_id rp.player_id) (sync_player rp) players)

-- The snapshot that is left, and the seats that are returned.
unfoldable pub sync_room_snapshot_players_from_round :
    List RoundPlayer → RoomConfig → RoomConfig × List ℤ
sync_room_snapshot_players_from_round round_players snapshot =
    let players = sync_players round_players (sorted (λ p. p.seat_number) snapshot.players) in
    (record snapshot { players = players }, map (λ p. p.seat_number) (select is_playing players))
