-- ===== src/Engine/PayoutValidation/Laws.antt =====
-- Which submitted payouts are accepted.
use poker_room_backend.Prelude.{
  ℤ, ◌+ℤ◌, ◌≤ℤ◌, ◌≡◌, ◌↔◌, ◌⊎◌, inl, inr, refl, sym, ap, subst, ◌∙◌, String, true, false, Option,
  none, some, List, [], ◌∷◌, ◌++◌, map, arith, Bool-cases, ltb_ℤ, if◌then◌else◌, sum_by,
  sum_by-append, All, All-append,
}
use poker_room_backend.Domain.Exceptions.{
  DomainError, ok, ◌>>◌, >>=-eq-ok, raise_if, raise_if-eq-ok,
}
use poker_room_backend.Domain.Models.{RoundPlayer}
use poker_room_backend.Engine.SidePots.{Pot, calculate_side_pots, has_id, is_empty}
use poker_room_backend.Engine.PayoutValidation.{
  WinnerShare, PotPayout, contribution, winners_total, check_winners, check_payout, pot_at,
  check_payouts, validate_payouts_against_side_pots,
}

-- A payout that fits its pot: no more chips than the pot has, to players who may win it.
pub record FitsPot (p : Pot) (s : PotPayout) : Type 0 where
  pub no_more : winners_total s ≤ℤ p.amount
  pub eligible : All (λ w. has_id w.player_id p.eligible_winner_player_ids ≡ true) s.winners

abbrev pub IsPayable : List Pot → PotPayout → Type 0
IsPayable pots s = (p : Pot) × (pot_at pots s.pot_index ≡ some p) × FitsPot p s

check_winners_iff :
    (ids : List String) (ws : List WinnerShare)
    → (check_winners ids ws ≡ ok tt) ↔ All (λ w. has_id w.player_id ids ≡ true) ws
unfolding check_winners
check_winners_iff ids [] = (λ h. tt, λ h. refl)
check_winners_iff ids (w ∷ ws) = elim (Bool-cases (has_id w.player_id ids)) [
  | inl has ↦ (
    λ h. (has, (check_winners_iff ids ws).0 (rw has at h)),
    λ h. rw (has, (check_winners_iff ids ws).1 h.1) refl,
  )
  | inr has_not ↦ (λ h. ground arith, λ h. ground arith)
]

check_payout_iff :
    (o : Option Pot) (s : PotPayout)
    → (check_payout o s ≡ ok tt) ↔ ((p : Pot) × (o ≡ some p) × FitsPot p s)
unfolding check_payout
check_payout_iff none s = (λ h. ground arith, λ h. ground arith)
check_payout_iff (some p) s = (λ h. (p, refl, fits h), λ h. accepted h.2 (pot_inj h.1))
  where
    pot_inj : {q : Pot} → some p ≡ some q → q ≡ p
    pot_inj e = cc

    fits :
        (raise_if (ltb_ℤ p.amount (winners_total s)) DomainError.payout_exceeds_pot
            >> check_winners p.eligible_winner_player_ids s.winners)
          ≡ ok tt
        → FitsPot p s
    fits h =
        let (no_more, rest) = raise_if-eq-ok (ltb_ℤ p.amount (winners_total s)) _ _ h in
        record { no_more = ground arith; eligible = (check_winners_iff _ s.winners).0 rest }

    accepted :
        {q : Pot}
        → FitsPot q s
        → q ≡ p
        → (raise_if (ltb_ℤ p.amount (winners_total s)) DomainError.payout_exceeds_pot
            >> check_winners p.eligible_winner_player_ids s.winners)
          ≡ ok tt
    accepted h e =
        let h' = subst (λ q. FitsPot q s) e h in
        let fits_in : ltb_ℤ p.amount (winners_total s) ≡ false = ground (arith, h'.no_more) in
        rw fits_in ((check_winners_iff _ s.winners).1 h'.eligible)

check_payouts_iff :
    (pots : List Pot) (ss : List PotPayout)
    → (check_payouts pots ss ≡ ok tt) ↔ All (IsPayable pots) ss
unfolding check_payouts
check_payouts_iff pots [] = (λ h. tt, λ h. refl)
check_payouts_iff pots (s ∷ ss) = (
  λ h.
      (let (_, one, rest) = >>=-eq-ok (check_payout (pot_at pots s.pot_index) s) _ h in
        ((check_payout_iff (pot_at pots s.pot_index) s).0 one, (check_payouts_iff pots ss).0 rest)),
  λ h.
      rw ((check_payout_iff (pot_at pots s.pot_index) s).1 h.0) ((check_payouts_iff pots ss).1 h.1),
)

checked_pots :
    (c : List Pot) (ss : List PotPayout) (pots : List Pot)
    → ((if is_empty c then ok c else check_payouts c ss >> ok c) ≡ ok pots)
      ↔ ((pots ≡ c) × ((is_empty pots ≡ true) ⊎ All (IsPayable pots) ss))
checked_pots c ss pots = elim (Bool-cases (is_empty c)) [
  | inl empty ↦ (
    λ h. (let e = same (rw empty at h) in (e, inl (ap is_empty e ∙ empty))),
    λ h. rw empty (ap ok (sym h.0)),
  )
  | inr pots_left ↦ (
    λ h.
        (let (_, checked, e) = >>=-eq-ok (check_payouts c ss) _ (rw pots_left at h) in
          (
            same e,
            inr (
                subst (λ ps. All (IsPayable ps) ss) (sym (same e))
                  ((check_payouts_iff c ss).0 checked)),
          )),
    λ h. elim h.1 [
      | inl empty ↦ absurd (differ (sym pots_left ∙ ap is_empty (sym h.0) ∙ empty))
      | inr payable ↦
          rw
            (
              pots_left,
              (check_payouts_iff c ss).1 (subst (λ ps. All (IsPayable ps) ss) h.0 payable),
            )
            (ap ok (sym h.0))
    ],
  )
]
  where
    same : {xs ys : List Pot} → ok xs ≡ ok ys → ys ≡ xs
    same e = cc

    differ : ¬ (false ≡ true)
    differ e = ground arith

-- Payouts are accepted exactly when there is no pot, or each of them names a pot, shares out no more
-- chips than that pot has, and only to players who may win it; the result is the pots themselves.
pub validate_payouts_iff :
    (rps : List RoundPlayer) (ss : List PotPayout) (total_pot : ℤ) (pots : List Pot)
    → (validate_payouts_against_side_pots rps ss total_pot ≡ ok pots) ↔ (
        (pots ≡ calculate_side_pots (map contribution rps))
        × ((is_empty pots ≡ true) ⊎ All (IsPayable pots) ss))
unfolding validate_payouts_against_side_pots
validate_payouts_iff rps ss total_pot pots =
    checked_pots (calculate_side_pots (map contribution rps)) ss pots

-- Each payout is checked alone: a list of payouts that is accepted is accepted as well when it is
-- submitted twice over, and then pays out twice the chips.
pub validate_payouts_twice :
    (rps : List RoundPlayer) (ss : List PotPayout) (total_pot : ℤ) {pots : List Pot}
    → validate_payouts_against_side_pots rps ss total_pot ≡ ok pots
    → (validate_payouts_against_side_pots rps (ss ++ ss) total_pot ≡ ok pots)
      × (sum_by winners_total (ss ++ ss) ≡ sum_by winners_total ss +ℤ sum_by winners_total ss)
validate_payouts_twice rps ss total_pot {pots} h =
    let (e, fine) = (validate_payouts_iff rps ss total_pot pots).0 h in
    (
      (validate_payouts_iff rps (ss ++ ss) total_pot pots).1 (
        e,
        elim fine [
          | inl empty ↦ inl empty
          | inr payable ↦ inr (All-append (IsPayable pots) ss ss payable payable)
        ],
      ),
      sum_by-append winners_total ss ss,
    )
