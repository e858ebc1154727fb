-- ===== src/Ledger/HandLedger/Laws.antt =====
-- The rebuilt state against plain sums over the entries.
use poker_room_backend.Prelude.{
  suc, ℤ, pos, ◌+ℤ◌, ◌-ℤ◌, ◌≡◌, refl, sym, ◌∙◌, String, Bool, true, false, Option, none, some, List,
  [], ◌∷◌, arith, int_laws, inl, inr, eq_iff, str_eq, if◌then◌else◌, or_else, Bool-cases, sum_by,
  All,
}
use poker_room_backend.Domain.Constants.{LedgerEntryType}
use poker_room_backend.Ledger.HandLedger.{
  LedgerRow, PlayerSnapshot, Snapshots, HandState, empty_state, new_snapshot, get, change_player,
  change_named, amount_of, old_player_of, post_entry, reverse_entry, correct_entry, apply_typed,
  apply_entry, apply_entries, rebuild_hand_state,
}

-- What an entry of a type adds to the pot: chips that were posted, less chips that were taken back.
abbrev pub typed_effect : LedgerEntryType → ℤ → ℤ
typed_effect LedgerEntryType.blind_posted amt = amt
typed_effect LedgerEntryType.ante_posted amt = amt
typed_effect LedgerEntryType.bet_placed amt = amt
typed_effect LedgerEntryType.action_reversed amt = pos 0 -ℤ amt
typed_effect _ amt = pos 0

abbrev pub pot_effect : LedgerRow → ℤ
pot_effect e = typed_effect e.entry_type (amount_of e)

typed_pot :
    (t : LedgerEntryType) (s : HandState) (e : LedgerRow)
    → (apply_typed t s e).pot_total ≡ s.pot_total +ℤ typed_effect t (amount_of e)
unfolding apply_typed post_entry reverse_entry correct_entry
typed_pot LedgerEntryType.blind_posted s e = refl
typed_pot LedgerEntryType.action_reversed s e = omega int_laws
typed_pot LedgerEntryType.ante_posted s e = refl
typed_pot LedgerEntryType.bet_placed s e = refl
typed_pot _ s e = omega int_laws

apply_entry_pot :
    (s : HandState) (e : LedgerRow) → (apply_entry s e).pot_total ≡ s.pot_total +ℤ pot_effect e
unfolding apply_entry
apply_entry_pot s e = typed_pot e.entry_type _ e

apply_entries_pot :
    (s : HandState) (es : List LedgerRow)
    → (apply_entries s es).pot_total ≡ s.pot_total +ℤ sum_by pot_effect es
apply_entries_pot s [] = omega int_laws
apply_entries_pot s (e ∷ es) =
    rw (apply_entries_pot (apply_entry s e) es, apply_entry_pot s e) (omega int_laws)

-- The rebuilt pot is the sum of the blinds, antes and bets, less what was reversed.
pub rebuild_pot : (es : List LedgerRow) → (rebuild_hand_state es).pot_total ≡ sum_by pot_effect es
unfolding rebuild_hand_state
rebuild_pot es = apply_entries_pot empty_state es ∙ omega int_laws

-- A dict after a change of one player.
pub get-change_player :
    (j k : String) (f : PlayerSnapshot → PlayerSnapshot) (d : Snapshots)
    → get j (change_player k f d)
      ≡ (if str_eq k j then some (f (or_else (get k d) (new_snapshot k))) else get j d)
unfolding get change_player
get-change_player j k f [] = refl
get-change_player j k f ((i, v) ∷ d) = elim (Bool-cases (str_eq i k)) [
  | inl here ↦ ground (arith, eq_iff i k, eq_iff k j, eq_iff i j)
  | inr there ↦ ground (arith, eq_iff i k, eq_iff k j, eq_iff i j, get-change_player j k f d)
]

-- A column of the snapshots, 0 for a player whom the ledger does not name.
abbrev pub column : (PlayerSnapshot → ℤ) → String → HandState → ℤ
column g player_id s = elim (get player_id s.players) [ none ↦ pos 0 | some ps ↦ g ps ]

-- What the rebuilt players have committed together.
abbrev pub committed_sum : Snapshots → ℤ
committed_sum = sum_by (λ kv. kv.1.total_committed)

change_player-sum :
    (x : ℤ) (k : String) (f : PlayerSnapshot → PlayerSnapshot) (d : Snapshots)
    → ((ps : PlayerSnapshot) → (f ps).total_committed ≡ ps.total_committed +ℤ x)
    → committed_sum (change_player k f d) ≡ committed_sum d +ℤ x
unfolding change_player
change_player-sum x k f [] h = rw (h (new_snapshot k)) (omega int_laws)
change_player-sum x k f ((i, v) ∷ d) h = elim (Bool-cases (str_eq i k)) [
  | inl here ↦ rw (here, h v) (omega int_laws)
  | inr there ↦ rw (there, change_player-sum x k f d h) (omega int_laws)
]

-- `if player_id:`
abbrev pub is_named : Option String → Bool
is_named none = false
is_named (some player_id) = if str_eq player_id "" then false else true

change_named-sum :
    (x : ℤ) (o : Option String) (f : PlayerSnapshot → PlayerSnapshot) (d : Snapshots)
    → is_named o ≡ true
    → ((ps : PlayerSnapshot) → (f ps).total_committed ≡ ps.total_committed +ℤ x)
    → committed_sum (change_named o f d) ≡ committed_sum d +ℤ x
unfolding change_named
change_named-sum x none f d n h = cc
change_named-sum x (some k) f d n h = elim (Bool-cases (str_eq k "")) [
  | inl nobody ↦ absurd (not_named k n nobody)
  | inr someone ↦ rw someone (change_player-sum x k f d h)
]
  where
    not_named : (k : String) → is_named (some k) ≡ true → str_eq k "" ≡ true → ⊥
    not_named k n e = ground arith

change_named-sum_same :
    (o : Option String) (f : PlayerSnapshot → PlayerSnapshot) (d : Snapshots)
    → ((ps : PlayerSnapshot) → (f ps).total_committed ≡ ps.total_committed)
    → committed_sum (change_named o f d) ≡ committed_sum d
unfolding change_named
change_named-sum_same none f d h = refl
change_named-sum_same (some k) f d h = elim (Bool-cases (str_eq k "")) [
  | inl nobody ↦ rw nobody refl
  | inr someone ↦
      rw (someone, change_player-sum (pos 0) k f d (λ ps. h ps ∙ omega int_laws)) (omega int_laws)
]

-- An entry that moves the pot.
abbrev pub is_betting : LedgerEntryType → Bool
is_betting LedgerEntryType.blind_posted = true
is_betting LedgerEntryType.ante_posted = true
is_betting LedgerEntryType.bet_placed = true
is_betting LedgerEntryType.action_reversed = true
is_betting _ = false

typed_committed :
    (t : LedgerEntryType) (s : HandState) (e : LedgerRow)
    → (is_betting t ≡ true → is_named e.player_id ≡ true)
    → committed_sum (apply_typed t s e).players
      ≡ committed_sum s.players +ℤ typed_effect t (amount_of e)
unfolding apply_typed post_entry reverse_entry correct_entry
typed_committed LedgerEntryType.blind_posted s e n =
    change_named-sum (amount_of e) e.player_id _ s.players (n refl) (λ ps. refl)
typed_committed LedgerEntryType.ante_posted s e n =
    change_named-sum (amount_of e) e.player_id _ s.players (n refl) (λ ps. refl)
typed_committed LedgerEntryType.bet_placed s e n =
    change_named-sum (amount_of e) e.player_id _ s.players (n refl) (λ ps. refl)
typed_committed LedgerEntryType.action_reversed s e n =
    change_named-sum (pos 0 -ℤ amount_of e) e.player_id _ s.players (n refl) (λ ps. omega int_laws)
typed_committed LedgerEntryType.street_dealt s e n = omega int_laws
typed_committed LedgerEntryType.round_completed s e n = omega int_laws
typed_committed LedgerEntryType.hand_reopened s e n = omega int_laws
typed_committed LedgerEntryType.payout_awarded s e n =
    change_named-sum_same e.player_id _ s.players (λ ps. refl) ∙ omega int_laws
typed_committed LedgerEntryType.stack_adjusted s e n =
    change_named-sum_same e.player_id _ s.players (λ ps. refl) ∙ omega int_laws
typed_committed LedgerEntryType.payout_corrected s e n =
    change_named-sum_same e.player_id _ _ (λ ps. refl)
    ∙ change_named-sum_same (old_player_of e) _ s.players (λ ps. refl)
    ∙ omega int_laws

apply_entry_committed :
    (s : HandState) (e : LedgerRow)
    → (is_betting e.entry_type ≡ true → is_named e.player_id ≡ true)
    → committed_sum (apply_entry s e).players ≡ committed_sum s.players +ℤ pot_effect e
unfolding apply_entry
apply_entry_committed s e n =
    typed_committed e.entry_type (record s { entry_count = suc s.entry_count }) e n

apply_entries_committed :
    (s : HandState) (es : List LedgerRow)
    → All (λ e. is_betting e.entry_type ≡ true → is_named e.player_id ≡ true) es
    → committed_sum (apply_entries s es).players ≡ committed_sum s.players +ℤ sum_by pot_effect es
apply_entries_committed s [] h = omega int_laws
apply_entries_committed s (e ∷ es) h =
    apply_entries_committed (apply_entry s e) es h.1
    ∙ rw (apply_entry_committed s e h.0) (omega int_laws)

-- If every entry that moves the pot names a player, the rebuilt pot is what the rebuilt players have
-- committed.
pub rebuild_pot-eq-committed :
    (es : List LedgerRow)
    → All (λ e. is_betting e.entry_type ≡ true → is_named e.player_id ≡ true) es
    → (rebuild_hand_state es).pot_total ≡ committed_sum (rebuild_hand_state es).players
rebuild_pot-eq-committed es h =
    rebuild_pot es
    ∙ sym (unfold rebuild_hand_state in apply_entries_committed empty_state es h ∙ omega int_laws)
