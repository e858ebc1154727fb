-- ===== src/Ledger/HandReplay/Laws.antt =====
-- The replay ends in the rebuilt state, and the consistency check finds exactly the differences.
use poker_room_backend.Prelude.{
  ℕ, suc, ℤ, ◌≡◌, ◌↔◌, refl, sym, ◌∙◌, String, true, Option, none, some, List, [], ◌∷◌, ◌++◌, arith,
  inl, inr, eqb_ℤ, eqb_ℤ_iff, eq_of_parts, if◌then◌else◌, Bool-cases, Option-cases, All, is_some,
}
use mathlib.Core.List.{append-nil, append_assoc}
use poker_room_backend.Ledger.HandLedger.{
  LedgerRow, PlayerSnapshot, Snapshots, HandState, empty_state, get, apply_entry, apply_entries,
  rebuild_hand_state,
}
use poker_room_backend.Ledger.HandReplay.{
  HandStep, step_of, replay_loop, replay_hand, committed_mismatch, check_player, check_live,
  check_replayed, verify_consistency,
}

replay_loop_state :
    (i : ℕ) (steps : List HandStep) (s : HandState) (es : List LedgerRow)
    → (replay_loop i steps s es).1 ≡ apply_entries s es
unfolding replay_loop
replay_loop_state i steps s [] = refl
replay_loop_state i steps s (e ∷ es) = replay_loop_state (suc i) _ (apply_entry s e) es

-- The steps of a replay, numbered from `i`: each holds the state behind its entry.
abbrev pub steps_from : ℕ → HandState → List LedgerRow → List HandStep
steps_from i s [] = []
steps_from i s (e ∷ es) = step_of i e (apply_entry s e) ∷ steps_from (suc i) (apply_entry s e) es

replay_loop_steps :
    (i : ℕ) (steps : List HandStep) (s : HandState) (es : List LedgerRow)
    → (replay_loop i steps s es).0 ≡ steps ++ steps_from i s es
unfolding replay_loop
replay_loop_steps i steps s [] = sym (append-nil steps)
replay_loop_steps i steps s (e ∷ es) =
    replay_loop_steps (suc i) _ (apply_entry s e) es ∙ append_assoc steps _ _

-- A replay ends in the state that the rebuild gives, and has one step for each entry, in order,
-- numbered from 1, with the state behind that entry.
pub replay_hand_lem :
    (es : List LedgerRow)
    → ((replay_hand es).final_state ≡ rebuild_hand_state es)
      × ((replay_hand es).steps ≡ steps_from 1 empty_state es)
unfolding replay_hand rebuild_hand_state
replay_hand_lem [] = (refl, replay_loop_steps 1 [] empty_state [])
replay_hand_lem (e ∷ es) =
    (replay_loop_state 1 [] empty_state (e ∷ es), replay_loop_steps 1 [] empty_state (e ∷ es))

-- The stored commitment of a player is the replayed one.
abbrev pub Matches : Snapshots → String × ℤ → Type 0
Matches players (player_id, committed) =
    (snap : PlayerSnapshot) × (get player_id players ≡ some snap)
    × (snap.total_committed ≡ committed)

append-eq-nil {ℓ} : {A : Type ℓ} (xs ys : List A) → (xs ++ ys ≡ []) ↔ ((xs ≡ []) × (ys ≡ []))
append-eq-nil [] ys = (λ h. (refl, h), λ h. h.1)
append-eq-nil (x ∷ xs) ys = (λ h. cc, λ h. cc)

check_player_iff :
    (player_id : String) (committed : ℤ) (found : Option PlayerSnapshot)
    → (check_player player_id committed found ≡ [])
      ↔ ((snap : PlayerSnapshot) × (found ≡ some snap) × (snap.total_committed ≡ committed))
unfolding check_player
check_player_iff player_id committed none = (λ h. cc, λ h. cc (h.1))
check_player_iff player_id committed (some snap) = (
  λ h. (snap, refl, ground (arith, eq_of_parts snap.total_committed committed)),
  λ h. same snap h.0 h.1 h.2,
)
  where
    same :
        (snap snap' : PlayerSnapshot)
        → some snap ≡ some snap'
        → snap'.total_committed ≡ committed
        → (if eqb_ℤ snap.total_committed committed
            then []
            else committed_mismatch player_id snap.total_committed committed ∷ [])
          ≡ []
    same snap snap' e h = ground arith

check_live_iff :
    (players : Snapshots) (live : List (String × ℤ))
    → (check_live players live ≡ []) ↔ All (Matches players) live
unfolding check_live
check_live_iff players [] = (λ h. tt, λ h. refl)
check_live_iff players ((player_id, committed) ∷ live) =
    let one = check_player_iff player_id committed (get player_id players) in
    let rest = check_live_iff players live in
    let both =
      append-eq-nil (check_player player_id committed (get player_id players))
        (check_live players live) in
    (λ h. (one.0 (both.0 h).0, rest.0 (both.0 h).1), λ h. both.1 (one.1 h.0, rest.1 h.1))

check_replayed_iff :
    (live : List (String × ℤ)) (players : Snapshots)
    → (check_replayed live players ≡ []) ↔ All (λ kv. is_some (get kv.0 live) ≡ true) players
unfolding check_replayed
check_replayed_iff live [] = (λ h. tt, λ h. refl)
check_replayed_iff live ((player_id, snap) ∷ players) = elim (Option-cases (get player_id live)) [
  | inl missing ↦ (λ h. cc (rw missing at h), λ h. cc (rw missing at h.0))
  | inr (c, found) ↦
      let rest = check_replayed_iff live players in
      (λ h. (rw found refl, rest.0 (rw found at h)), λ h. rw found (rest.1 h.1))
]

-- The check reports nothing exactly when the stored pot is the replayed one, every stored player has
-- committed what the replay says, and every replayed player is stored.
pub verify_consistency_iff :
    (es : List LedgerRow) (pot : ℤ) (live : List (String × ℤ))
    → (verify_consistency es pot live ≡ []) ↔ (
        ((rebuild_hand_state es).pot_total ≡ pot)
        × All (Matches (rebuild_hand_state es).players) live
        × All (λ kv. is_some (get kv.0 live) ≡ true) (rebuild_hand_state es).players)
unfolding verify_consistency
verify_consistency_iff es pot live =
    let s = rebuild_hand_state es in
    let live_iff = check_live_iff s.players live in
    let replayed_iff = check_replayed_iff live s.players in
    let tail = append-eq-nil (check_live s.players live) (check_replayed live s.players) in
    elim (Bool-cases (eqb_ℤ s.pot_total pot)) [
      | inl same ↦ (
        λ h.
            let parts = tail.0 (rw same at h) in
            ((eqb_ℤ_iff s.pot_total pot).0 same, live_iff.0 parts.0, replayed_iff.0 parts.1),
        λ h. rw same (tail.1 (live_iff.1 h.1, replayed_iff.1 h.2)),
      )
      | inr differ ↦ (λ h. cc (rw differ at h), λ h. cc ((eqb_ℤ_iff s.pot_total pot).1 h.0, differ))
    ]
