-- ===== src/Application/Session.antt =====
-- A game as its commands run it, hand after hand: each hand is dealt from the snapshot of the room that
-- the hand before left (services/game-service/app/application/commands and
-- services/game-service/app/infrastructure/room_config.py).
use poker_room_backend.Prelude.{
  ℤ, pos, ◌+ℤ◌, ◌-ℤ◌, ◌≤ℤ◌, ◌≡◌, refl, sym, subst, ◌∙◌, List, map, int_laws, All, All-map,
  All-select, All-IsIn, IsIn, select,
}
use poker_room_backend.Prelude.Sorting.{sorted, All-sorted}
use poker_room_backend.Prelude.Distinct.{DistinctBy-sorted, DistinctBy-select}
use poker_room_backend.Domain.Exceptions.{ok}
use poker_room_backend.Domain.Models.{Game, RoundPayout}
use poker_room_backend.Domain.RoomConfig.{PlayerConfig, RoomConfig, active_players, is_playing}
use poker_room_backend.Engine.PayoutValidation.{PotPayout}
use poker_room_backend.Application.Rows.{HandRows}
use poker_room_backend.Application.Consistency.{IsConsistent, chips_of}
use poker_room_backend.Application.StartRound.Laws.{HasFairLevels}
use poker_room_backend.Application.Snapshot.{
  load_room_snapshot, sync_room_snapshot_players_from_round,
}
use poker_room_backend.Application.Snapshot.Laws.{
  room_chips, HasDistinctPlayers, sync_room_snapshot_lem,
}
use poker_room_backend.Application.ResolveHand.{GameRows, ResolveIds, total_paid, resolve_hand}
use poker_room_backend.Application.ResolveHand.Paying.{stacks}
use poker_room_backend.Application.ResolveHand.Accepted.{HasChips, resolve_hand-Resolved}
use poker_room_backend.Application.ResolveHand.Laws.{IsSettled, resolve_hand_lem, settle_snapshot}
use poker_room_backend.Application.Play.{Play, Play-IsConsistent}
use poker_room_backend.Application.Play.Players.{Play-players}

abbrev pub rows_of : Game → RoomConfig → HandRows → List RoundPayout → GameRows
rows_of game snapshot hand payouts = record {
  game = game;
  snapshot = snapshot;
  hand = hand;
  payouts = payouts;
}

-- The snapshots that hands reach from the first one, with the chips that were left in the pots.
pub data Session (first : RoomConfig) : RoomConfig → ℤ → Type 0 where
  opened : Session first first (pos 0)
  hand :
      (game : Game) (rows : HandRows) (ids : ResolveIds) (ss : List PotPayout)
      (payouts : List RoundPayout) {snapshot : RoomConfig} {lost : ℤ} {t' : GameRows}
      → Session first snapshot lost
      → Play game (load_room_snapshot snapshot) rows
      → All HasChips ss
      → resolve_hand ids ss (rows_of game snapshot rows payouts) ≡ ok t'
      → Session first t'.snapshot (lost +ℤ (rows.round.pot_amount -ℤ total_paid ss))

-- What every snapshot of a session keeps.
pub record IsKept (first snapshot : RoomConfig) (lost : ℤ) : Type 0 where
  pub chips_kept : room_chips snapshot.players +ℤ lost ≡ room_chips first.players
  pub lost_nonneg : pos 0 ≤ℤ lost
  pub distinct : HasDistinctPlayers snapshot.players
  pub fair : HasFairLevels snapshot

load-HasFairLevels :
    (snapshot : RoomConfig) → HasFairLevels snapshot → HasFairLevels (load_room_snapshot snapshot)
unfolding load_room_snapshot
load-HasFairLevels snapshot fair =
    All-sorted (λ l. (pos 0 ≤ℤ l.small_blind) × (pos 0 ≤ℤ l.big_blind)) (λ bl. bl.level)
      snapshot.blind_levels fair

dealt : RoomConfig → List PlayerConfig
dealt snapshot = active_players (load_room_snapshot snapshot)

dealt-HasDistinctPlayers :
    (snapshot : RoomConfig)
    → HasDistinctPlayers snapshot.players
    → HasDistinctPlayers (dealt snapshot)
unfolding dealt active_players load_room_snapshot
dealt-HasDistinctPlayers snapshot d =
    DistinctBy-sorted (λ p. p.player_id) (λ p. p.seat_number) _
      (DistinctBy-select (λ p. p.player_id) is_playing _
        (DistinctBy-sorted (λ p. p.player_id) (λ p. p.seat_number) snapshot.players d))

dealt-IsIn : (snapshot : RoomConfig) → All (λ q. IsIn q snapshot.players) (dealt snapshot)
unfolding dealt active_players load_room_snapshot
dealt-IsIn snapshot =
    let ps = sorted (λ (p : PlayerConfig). p.seat_number) snapshot.players in
    All-sorted (λ q. IsIn q snapshot.players) (λ p. p.seat_number) (select is_playing ps)
      (All-map (λ q h. h.0) (select is_playing ps)
        (All-select (λ q. IsIn q snapshot.players) is_playing ps
          (All-sorted (λ q. IsIn q snapshot.players) (λ p. p.seat_number) snapshot.players
            (All-IsIn snapshot.players))))

sync-blind_levels :
    (t : GameRows)
    → (sync_room_snapshot_players_from_round t.hand.players t.snapshot).0.blind_levels
      ≡ t.snapshot.blind_levels
unfolding sync_room_snapshot_players_from_round
sync-blind_levels t = refl

module _ (first snapshot : RoomConfig) (lost : ℤ) (game : Game) (rows : HandRows) (ids : ResolveIds)
    (ss : List PotPayout) (payouts : List RoundPayout) {t' : GameRows}
    (kept : IsKept first snapshot lost) (play : Play game (load_room_snapshot snapshot) rows)
    (chips : All HasChips ss)
    (h : resolve_hand ids ss (rows_of game snapshot rows payouts) ≡ ok t') where
  played : IsConsistent rows × (chips_of rows ≡ room_chips (dealt snapshot))
  unfolding dealt
  played = Play-IsConsistent (load-HasFairLevels snapshot kept.fair) play

  settled : IsSettled (rows_of game snapshot rows payouts) t' (total_paid ss)
  settled = resolve_hand_lem ids ss (rows_of game snapshot rows payouts) played.0 chips h

  same_snapshot : t'.snapshot ≡ (sync_room_snapshot_players_from_round t'.hand.players snapshot).0
  same_snapshot =
      subst
        (λ (t : GameRows).
          t.snapshot ≡ (sync_room_snapshot_players_from_round t.hand.players snapshot).0)
        (sym (resolve_hand-Resolved ids ss (rows_of game snapshot rows payouts) h).result)
        (settle_snapshot ids ss (rows_of game snapshot rows payouts))

  same_ids : map (λ rp. rp.player_id) t'.hand.players ≡ map (λ p. p.player_id) (dealt snapshot)
  unfolding dealt
  same_ids = settled.ids_kept ∙ Play-players (load-HasFairLevels snapshot kept.fair) play

  synced :
      (room_chips (sync_room_snapshot_players_from_round t'.hand.players snapshot).0.players
          +ℤ room_chips (dealt snapshot)
        ≡ room_chips snapshot.players +ℤ stacks t'.hand.players)
      × HasDistinctPlayers
          (sync_room_snapshot_players_from_round t'.hand.players snapshot).0.players
  synced =
      sync_room_snapshot_lem t'.hand.players (dealt snapshot) snapshot kept.distinct
        (dealt-HasDistinctPlayers snapshot kept.distinct) (dealt-IsIn snapshot) same_ids
        settled.stacks_nonneg

  hand-IsKept : IsKept first t'.snapshot (lost +ℤ (rows.round.pot_amount -ℤ total_paid ss))
  hand-IsKept =
      subst (λ s. IsKept first s (lost +ℤ (rows.round.pot_amount -ℤ total_paid ss)))
        (sym same_snapshot)
        record {
          chips_kept =
              balance _ (room_chips (dealt snapshot)) (room_chips snapshot.players)
                (stacks t'.hand.players) (stacks rows.players) rows.round.pot_amount (total_paid ss)
                lost _ synced.0 settled.stacks_moved played.1 kept.chips_kept;
          lost_nonneg =
              more lost rows.round.pot_amount (total_paid ss) kept.lost_nonneg
                settled.paid_from_pot;
          distinct = synced.1;
          fair =
              subst (All (λ l. (pos 0 ≤ℤ l.small_blind) × (pos 0 ≤ℤ l.big_blind)))
                (sym (sync-blind_levels (record t' { snapshot = snapshot }))) kept.fair;
        }
    where
      more : (l p s : ℤ) → pos 0 ≤ℤ l → s ≤ℤ p → pos 0 ≤ℤ l +ℤ (p -ℤ s)
      more l p s h k = omega int_laws

      -- `x` and `s` are the chips of the room after and before, `q` those dealt, `k` and `k'` the stacks
      balance :
          (x q s k' k p d l f : ℤ)
          → x +ℤ q ≡ s +ℤ k'
          → k' ≡ k +ℤ d
          → k +ℤ p ≡ q
          → s +ℤ l ≡ f
          → x +ℤ (l +ℤ (p -ℤ d)) ≡ f
      balance x q s k' k p d l f a b c e = grind int_laws

-- From a snapshot that lists no player twice and whose blind levels are 0 or more, after every sequence
-- of played and resolved hands in which each named winner gets a chip or more, the chips of the players
-- in the snapshot and the chips that were left in the pots add up to the chips of the first snapshot. No
-- hand makes a chip, since 0 or more are left; no player is listed twice, and the blind levels are 0 or
-- more.
pub Session-IsKept :
    {first snapshot : RoomConfig} {lost : ℤ}
    → HasFairLevels first
    → HasDistinctPlayers first.players
    → Session first snapshot lost
    → IsKept first snapshot lost
Session-IsKept {first} fair d opened = record {
  chips_kept = plus_zero (room_chips first.players);
  lost_nonneg = omega int_laws;
  distinct = d;
  fair = fair;
}
  where
    plus_zero : (a : ℤ) → a +ℤ pos 0 ≡ a
    plus_zero a = omega int_laws
Session-IsKept {first} fair d
      (hand game rows ids ss payouts {snapshot} {lost} before play chips h) =
    hand-IsKept first snapshot lost game rows ids ss payouts (Session-IsKept fair d before) play
      chips h
