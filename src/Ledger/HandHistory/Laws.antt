-- ===== src/Ledger/HandHistory/Laws.antt =====
-- The timeline and the rebuilt state tell the same story.
use poker_room_backend.Prelude.{ℤ, pos, ◌+ℤ◌, ◌-ℤ◌, ◌≡◌, refl, ap, ◌∙◌, String, List, [], ◌∷◌, ◌++◌}
use poker_room_backend.Domain.Constants.{LedgerEntryType}
use poker_room_backend.Ledger.HandLedger.{
  LedgerRow, HandState, empty_state, amount_of, post_entry, reverse_entry, correct_entry,
  apply_typed, apply_entry, apply_entries, rebuild_hand_state,
}
use poker_room_backend.Ledger.HandHistory.{
  StreetSummary, Progress, deal_street, note_action, note_correction, note_typed, note_entry,
  note_entries, start, build_hand_timeline,
}

-- The loop of the timeline and that of the rebuild agree.
record Agree (p : Progress) (s : HandState) : Type 0 where
  same_pot : p.pot ≡ s.pot_total
  same_completed : p.timeline.is_completed ≡ s.is_completed
  same_reopened : p.timeline.is_reopened ≡ s.is_reopened

typed-Agree :
    (t : LedgerEntryType) (p : Progress) (s : HandState) (e : LedgerRow)
    → Agree p s
    → Agree (note_typed t p e) (apply_typed t s e)
unfolding note_typed apply_typed deal_street note_action note_correction post_entry reverse_entry
    correct_entry
typed-Agree LedgerEntryType.blind_posted p s e a = record {
  same_pot = ap (λ x. x +ℤ amount_of e) a.same_pot;
  same_completed = a.same_completed;
  same_reopened = a.same_reopened;
}
typed-Agree LedgerEntryType.ante_posted p s e a = record {
  same_pot = ap (λ x. x +ℤ amount_of e) a.same_pot;
  same_completed = a.same_completed;
  same_reopened = a.same_reopened;
}
typed-Agree LedgerEntryType.bet_placed p s e a = record {
  same_pot = ap (λ x. x +ℤ amount_of e) a.same_pot;
  same_completed = a.same_completed;
  same_reopened = a.same_reopened;
}
typed-Agree LedgerEntryType.action_reversed p s e a = record {
  same_pot = ap (λ x. x -ℤ amount_of e) a.same_pot;
  same_completed = a.same_completed;
  same_reopened = a.same_reopened;
}
typed-Agree LedgerEntryType.round_completed p s e a = record {
  same_pot = a.same_pot;
  same_completed = refl;
  same_reopened = a.same_reopened;
}
typed-Agree LedgerEntryType.hand_reopened p s e a = record {
  same_pot = a.same_pot;
  same_completed = refl;
  same_reopened = refl;
}
typed-Agree _ p s e a = record {
  same_pot = a.same_pot;
  same_completed = a.same_completed;
  same_reopened = a.same_reopened;
}

entries-Agree :
    (p : Progress) (s : HandState) (es : List LedgerRow)
    → Agree p s
    → Agree (note_entries p es) (apply_entries s es)
unfolding note_entry apply_entry
entries-Agree p s [] a = a
entries-Agree p s (e ∷ es) a = entries-Agree (note_entry p e) (apply_entry s e) es (
    typed-Agree e.entry_type p _ e (record {
      same_pot = a.same_pot;
      same_completed = a.same_completed;
      same_reopened = a.same_reopened;
    }))

-- The pot at the end of the last street of a list.
abbrev pub last_pot : List StreetSummary → ℤ
last_pot [] = pos 0
last_pot (s ∷ []) = s.pot_at_end
last_pot (s ∷ t ∷ ss) = last_pot (t ∷ ss)

last_pot-append :
    (ss : List StreetSummary) (s : StreetSummary) → last_pot (ss ++ s ∷ []) ≡ s.pot_at_end
last_pot-append [] s = refl
last_pot-append (t ∷ []) s = refl
last_pot-append (t ∷ u ∷ ss) s = last_pot-append (u ∷ ss) s

-- The timeline ends with the pot that the rebuild computes, and says of the hand that it is
-- completed or reopened exactly as the rebuild does.
pub build_hand_timeline-eq-rebuild :
    (round_id : String) (es : List LedgerRow)
    → (last_pot (build_hand_timeline round_id es).streets ≡ (rebuild_hand_state es).pot_total)
      × ((build_hand_timeline round_id es).is_completed ≡ (rebuild_hand_state es).is_completed)
      × ((build_hand_timeline round_id es).is_reopened ≡ (rebuild_hand_state es).is_reopened)
unfolding build_hand_timeline rebuild_hand_state
build_hand_timeline-eq-rebuild round_id es =
    let a =
      entries-Agree (start round_id es) empty_state es
        (record { same_pot = refl; same_completed = refl; same_reopened = refl }) in
    (
      last_pot-append (note_entries (start round_id es) es).timeline.streets _ ∙ a.same_pot,
      a.same_completed,
      a.same_reopened,
    )
