-- ===== src/Application/Snapshot/Laws.antt =====
-- What the sync of a snapshot with a round does to the chips of the room.
use poker_room_backend.Prelude.{
  ℤ, pos, ◌+ℤ◌, ◌-ℤ◌, ◌≤ℤ◌, ◌≡◌, refl, sym, ap, ap₂, subst, ◌∙◌, String, true, false, some, List,
  [], ◌∷◌, map, arith, int_laws, inl, inr, Bool-cases, str_eq, eq_iff, find_first, sum_by,
  sum_by-change_first, All, All-map, IsIn, max_ℤ, change_first, find_first-change_first_other,
}
use poker_room_backend.Prelude.Sorting.{sorted, sum_by-sorted, IsIn-sorted}
use poker_room_backend.Prelude.Distinct.{
  DistinctBy, DistinctBy-sorted, DistinctBy-change_first, find_first_member,
}
use poker_room_backend.Domain.Models.{RoundPlayer}
use poker_room_backend.Domain.RoomConfig.{PlayerConfig, RoomConfig}
use poker_room_backend.Application.Snapshot.{
  sync_player, sync_players, sync_room_snapshot_players_from_round,
}

abbrev pub room_chips : List PlayerConfig → ℤ
room_chips = sum_by (λ p. p.chip_count)

abbrev player_ids : List PlayerConfig → List String
player_ids = map (λ p. p.player_id)

-- No player is listed twice.
abbrev pub HasDistinctPlayers : List PlayerConfig → Type 0
HasDistinctPlayers = DistinctBy (λ p. p.player_id)

-- The row of the snapshot that a search for the player of `q` finds is `q`.
abbrev IsListed : List PlayerConfig → PlayerConfig → Type 0
IsListed ps q = find_first (λ p. str_eq p.player_id q.player_id) ps ≡ some q

-- The stack that the sync writes.
abbrev synced_stack : RoundPlayer → ℤ
synced_stack rp = max_ℤ rp.stack_remaining (pos 0)

still-IsListed :
    (rp : RoundPlayer) (q : PlayerConfig) (ps : List PlayerConfig)
    → ¬ (rp.player_id ≡ q.player_id)
    → IsListed ps q
    → IsListed (change_first (λ p. str_eq p.player_id rp.player_id) (sync_player rp) ps) q
still-IsListed rp q ps ne h =
    find_first-change_first_other _ _ (sync_player rp) ps (λ p it. (misses p it, misses p it)) ∙ h
  where
    misses :
        (p : PlayerConfig)
        → str_eq p.player_id rp.player_id ≡ true
        → str_eq p.player_id q.player_id ≡ false
    misses p it = elim (Bool-cases (str_eq p.player_id q.player_id)) [
      | inl also ↦ absurd (
          ne (
            sym ((eq_iff p.player_id rp.player_id).0 it) ∙ (eq_iff p.player_id q.player_id).0 also))
      | inr no' ↦ no'
    ]

head_id : {a b : String} {xs ys : List String} → a ∷ xs ≡ b ∷ ys → (a ≡ b) × (xs ≡ ys)
head_id e = (cc, cc)

-- The chips of the round's players leave the snapshot, and their stacks enter it.
sync_players_total :
    (rps : List RoundPlayer) (qs ps : List PlayerConfig)
    → map (λ rp. rp.player_id) rps ≡ player_ids qs
    → HasDistinctPlayers qs
    → All (IsListed ps) qs
    → room_chips (sync_players rps ps) +ℤ room_chips qs ≡ room_chips ps +ℤ sum_by synced_stack rps
unfolding sync_players
sync_players_total [] [] ps e d h = refl
sync_players_total [] (q ∷ qs) ps e d h = absurd (ground arith)
sync_players_total (rp ∷ rps) [] ps e d h = absurd (ground arith)
sync_players_total (rp ∷ rps) (q ∷ qs) ps e d h =
    let (same_id, same_ids) = head_id e in
    let found = subst (λ x. find_first (λ p. str_eq p.player_id x) ps ≡ some q) (sym same_id) h.0 in
    let moved =
      sum_by-change_first (λ p. p.chip_count) (synced_stack rp -ℤ q.chip_count)
        (λ p. str_eq p.player_id rp.player_id) (sync_player rp) ps
        (gap (synced_stack rp) q.chip_count) found in
    let rest =
      sync_players_total rps qs _ same_ids d.1
        (both qs d.0 h.1 (λ x ne. λ e'. ne (sym same_id ∙ e'))) in
    regroup (room_chips ps) _ _ (room_chips qs) q.chip_count (synced_stack rp)
      (sum_by synced_stack rps) rest moved
  where
    gap : (a b : ℤ) → a ≡ b +ℤ (a -ℤ b)
    gap a b = omega int_laws

    both :
        (xs : List PlayerConfig)
        → All (λ x. ¬ (q.player_id ≡ x.player_id)) xs
        → All (IsListed ps) xs
        → ((x : PlayerConfig) → ¬ (q.player_id ≡ x.player_id) → ¬ (rp.player_id ≡ x.player_id))
        → All
            (IsListed (change_first (λ p. str_eq p.player_id rp.player_id) (sync_player rp) ps))
            xs
    both [] ne listed f = tt
    both (x ∷ xs) ne listed f =
        (still-IsListed rp x ps (f x ne.0) listed.0, both xs ne.1 listed.1 f)

    regroup :
        (s s' t u b a v : ℤ) → t +ℤ u ≡ s' +ℤ v → s' ≡ s +ℤ (a -ℤ b) → t +ℤ (b +ℤ u) ≡ s +ℤ (a +ℤ v)
    regroup s s' t u b a v e e' =
        swap t b u ∙ ap (λ x. b +ℤ x) (e ∙ ap (λ x. x +ℤ v) e') ∙ cancel s a b v
      where
        swap : (x y z : ℤ) → x +ℤ (y +ℤ z) ≡ y +ℤ (x +ℤ z)
        swap x y z = omega int_laws

        cancel : (x y z w : ℤ) → z +ℤ ((x +ℤ (y -ℤ z)) +ℤ w) ≡ x +ℤ (y +ℤ w)
        cancel x y z w = omega int_laws

sync_players-HasDistinctPlayers :
    (rps : List RoundPlayer) (ps : List PlayerConfig)
    → HasDistinctPlayers ps
    → HasDistinctPlayers (sync_players rps ps)
unfolding sync_players
sync_players-HasDistinctPlayers [] ps d = d
sync_players-HasDistinctPlayers (rp ∷ rps) ps d =
    sync_players-HasDistinctPlayers rps _
      (DistinctBy-change_first (λ p. p.player_id) _ (sync_player rp) ps (λ p. refl) d)

synced_nonneg :
    (rps : List RoundPlayer)
    → All (λ rp. pos 0 ≤ℤ rp.stack_remaining) rps
    → sum_by synced_stack rps ≡ sum_by (λ rp. rp.stack_remaining) rps
synced_nonneg [] h = refl
synced_nonneg (rp ∷ rps) h = ap₂ ◌+ℤ◌ (at_least rp.stack_remaining h.0) (synced_nonneg rps h.1)
  where
    at_least : (a : ℤ) → pos 0 ≤ℤ a → max_ℤ a (pos 0) ≡ a
    at_least a h = ground arith

all-IsListed :
    (ps qs : List PlayerConfig)
    → HasDistinctPlayers ps
    → All (λ q. IsIn q ps) qs
    → All (IsListed ps) qs
all-IsListed ps qs d h = All-map (λ q i. find_first_member (λ p. p.player_id) ps q d i) qs h

-- A sync with the final players of a round, who were `qs` in the snapshot, replaces the chips of `qs`
-- by the stacks, and lists nobody twice.
pub sync_room_snapshot_lem :
    (rps : List RoundPlayer) (qs : List PlayerConfig) (snapshot : RoomConfig)
    → HasDistinctPlayers snapshot.players
    → HasDistinctPlayers qs
    → All (λ q. IsIn q snapshot.players) qs
    → map (λ rp. rp.player_id) rps ≡ map (λ q. q.player_id) qs
    → All (λ rp. pos 0 ≤ℤ rp.stack_remaining) rps
    → (room_chips (sync_room_snapshot_players_from_round rps snapshot).0.players +ℤ room_chips qs
        ≡ room_chips snapshot.players +ℤ sum_by (λ rp. rp.stack_remaining) rps)
      × HasDistinctPlayers (sync_room_snapshot_players_from_round rps snapshot).0.players
unfolding sync_room_snapshot_players_from_round
sync_room_snapshot_lem rps qs snapshot d dq h e nonneg =
    let ps = sorted (λ p. p.seat_number) snapshot.players in
    let d' = DistinctBy-sorted (λ p. p.player_id) (λ p. p.seat_number) snapshot.players d in
    (
      sync_players_total rps qs ps e dq
            (all-IsListed ps qs d' (All-map (λ q i. IsIn-sorted (λ p. p.seat_number) i) qs h))
          ∙ ap₂ ◌+ℤ◌ (sum_by-sorted (λ p. p.chip_count) (λ p. p.seat_number) snapshot.players)
              (synced_nonneg rps nonneg),
      sync_players-HasDistinctPlayers rps ps d',
    )
