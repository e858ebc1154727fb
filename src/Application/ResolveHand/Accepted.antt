-- ===== src/Application/ResolveHand/Accepted.antt =====
-- Payouts that `resolve_hand` accepts go to players of the hand
-- (services/game-service/app/application/commands/game_command_service.py).
use poker_room_backend.Prelude.{
  ℤ, pos, ◌+ℤ◌, ◌≤ℤ◌, ◌<ℤ◌, ◌≡◌, refl, sym, ap, subst, ◌∙◌, String, true, not, List, [], ◌∷◌, map,
  arith, int_laws, inl, inr, Bool-cases, str_eq, eq_iff, sum_by, sum_by_nonneg, sum_by-map, All,
  All-map, All-find_first, All-of_map, IsIn, here, there, ltb_ℤ,
}
use poker_room_backend.Domain.Constants.{round_is_active}
use poker_room_backend.Domain.Exceptions.{ok, >>=-eq-ok, raise_if-eq-ok}
use poker_room_backend.Domain.Models.{RoundPlayer}
use poker_room_backend.Engine.SidePots.{
  PlayerContribution, Pot, calculate_side_pots, has_id, is_empty,
}
use poker_room_backend.Engine.SidePots.Levels.{IsWinner}
use poker_room_backend.Engine.SidePots.Laws.{
  pots_total, calculate_side_pots_total, calculate_side_pots-IsWinner,
}
use poker_room_backend.Engine.PayoutValidation.{
  WinnerShare, PotPayout, contribution, winners_total, pot_at, validate_payouts_against_side_pots,
}
use poker_room_backend.Engine.PayoutValidation.Laws.{IsPayable, validate_payouts_iff}
use poker_room_backend.Application.Rows.{HandRows}
use poker_room_backend.Application.Consistency.{IsConsistent}
use poker_room_backend.Application.ResolveHand.{
  GameRows, ResolveIds, total_paid, check_amounts, settle, resolve_hand,
}
use poker_room_backend.Application.ResolveHand.Paying.{ids_of, IsWinnerSeated, IsPayout}

-- At least a chip for each winner, as the schema of the request wants it.
abbrev pub HasChips : PotPayout → Type 0
HasChips s = All (λ w. pos 0 <ℤ w.amount) s.winners

has_id-contributor :
    (rps : List RoundPlayer) (p : PlayerContribution)
    → IsIn p (map contribution rps)
    → has_id p.player_id (ids_of rps) ≡ true
unfolding has_id
has_id-contributor [] p at = elim at [ ]
has_id-contributor (rp ∷ rps) p (here _) = rw ((eq_iff rp.player_id rp.player_id).1 refl) refl
has_id-contributor (rp ∷ rps) p (there _ at) = rw (has_id-contributor rps p at) (ground arith)

-- A name on a list has the property of the list's members.
All-has_id :
    (P : String → Type 0) (player_id : String) (ids : List String)
    → All P ids
    → has_id player_id ids ≡ true
    → P player_id
unfolding has_id
All-has_id P player_id [] h e = ground arith
All-has_id P player_id (x ∷ ids) h e = elim (Bool-cases (str_eq x player_id)) [
  | inl it ↦ subst P ((eq_iff x player_id).0 it) h.0
  | inr other ↦ All-has_id P player_id ids h.1 (rw other at e)
]

payable-IsPayout :
    (rps : List RoundPlayer) (s : PotPayout)
    → IsPayable (calculate_side_pots (map contribution rps)) s
    → HasChips s
    → IsPayout rps s
unfolding pot_at
payable-IsPayout rps s (p, found, fits) chips =
    let players = map contribution rps in
    let winners =
      (All-find_first (λ q. All (IsWinner players) q.eligible_winner_player_ids) _
        (calculate_side_pots players) (calculate_side_pots-IsWinner players) found).0 in
    both s.winners
      (All-map
        (λ w has.
          elig w.player_id
            (All-has_id (IsWinner players) w.player_id p.eligible_winner_player_ids winners has))
        s.winners fits.eligible)
      chips
  where
    elig :
        (player_id : String)
        → IsWinner (map contribution rps) player_id
        → has_id player_id (ids_of rps) ≡ true
    elig player_id w =
        subst (λ x. has_id x (ids_of rps) ≡ true) w.named (has_id-contributor rps w.player w.listed)

    both :
        (ws : List WinnerShare)
        → All (IsWinnerSeated rps) ws
        → All (λ w. pos 0 <ℤ w.amount) ws
        → All (λ w. IsWinnerSeated rps w × (pos 0 <ℤ w.amount)) ws
    both [] h k = tt
    both (w ∷ ws) h k = ((h.0, k.0), both ws h.1 k.1)

-- Where nothing is paid, nobody is.
winners_of_nothing :
    (rps : List RoundPlayer) (ws : List WinnerShare)
    → All (λ w. pos 0 <ℤ w.amount) ws
    → sum_by (λ w. w.amount) ws ≤ℤ pos 0
    → All (λ w. IsWinnerSeated rps w × (pos 0 <ℤ w.amount)) ws
winners_of_nothing rps [] h le = tt
winners_of_nothing rps (w ∷ ws) h le =
    let rest = sum_by_nonneg (λ w. w.amount) ws (All-map (λ x lt. omega arith) ws h.1) in
    absurd (too_much w.amount (sum_by (λ w. w.amount) ws) h.0 rest le)
  where
    too_much : (a b : ℤ) → pos 0 <ℤ a → pos 0 ≤ℤ b → a +ℤ b ≤ℤ pos 0 → ⊥
    too_much a b h k le = omega int_laws

payouts_of_nothing :
    (rps : List RoundPlayer) (ss : List PotPayout)
    → All HasChips ss
    → total_paid ss ≤ℤ pos 0
    → All (IsPayout rps) ss
payouts_of_nothing rps [] h le = tt
payouts_of_nothing rps (s ∷ ss) h le =
    let one = paid_nonneg s h.0 in
    let rest = sum_by_nonneg winners_total ss (All-map paid_nonneg ss h.1) in
    (
      winners_of_nothing rps s.winners h.0 (left_le (winners_total s) (total_paid ss) rest le),
      payouts_of_nothing rps ss h.1 (right_le (winners_total s) (total_paid ss) one le),
    )
  where
    paid_nonneg : (s : PotPayout) → HasChips s → pos 0 ≤ℤ winners_total s
    paid_nonneg s h =
        sum_by_nonneg (λ w. w.amount) s.winners (All-map (λ x lt. omega arith) s.winners h)

    left_le : (a b : ℤ) → pos 0 ≤ℤ b → a +ℤ b ≤ℤ pos 0 → a ≤ℤ pos 0
    left_le a b h le = omega int_laws

    right_le : (a b : ℤ) → pos 0 ≤ℤ a → a +ℤ b ≤ℤ pos 0 → b ≤ℤ pos 0
    right_le a b h le = omega int_laws

-- A hand that was resolved, by its guards.
pub record Resolved (ids : ResolveIds) (ss : List PotPayout) (t t' : GameRows) : Type 0 where
  pub active : round_is_active t.hand.round.status ≡ true
  pub no_more : total_paid ss ≤ℤ t.hand.round.pot_amount
  pub pots : List Pot
  pub valid : validate_payouts_against_side_pots t.hand.players ss t.hand.round.pot_amount ≡ ok pots
  pub result : t' ≡ settle ids ss t

pub resolve_hand-Resolved :
    (ids : ResolveIds) (ss : List PotPayout) (t : GameRows) {t' : GameRows}
    → resolve_hand ids ss t ≡ ok t'
    → Resolved ids ss t t'
unfolding resolve_hand
resolve_hand-Resolved ids ss t h =
    let (active, h1) = raise_if-eq-ok (not (round_is_active t.hand.round.status)) _ _ h in
    let (_, h2) = raise_if-eq-ok (is_empty ss) _ _ h1 in
    let (no_more, h3) = raise_if-eq-ok (ltb_ℤ t.hand.round.pot_amount (total_paid ss)) _ _ h2 in
    let (_, _, h4) = >>=-eq-ok (check_amounts ss) _ h3 in
    let (pots, valid, h5) =
      >>=-eq-ok (validate_payouts_against_side_pots t.hand.players ss t.hand.round.pot_amount) _
        h4 in
    record {
      active = ground arith;
      no_more = ground arith;
      pots = pots;
      valid = valid;
      result = cc;
    }

-- Accepted payouts go to players of the hand.
pub accepted-IsPayout :
    (ss : List PotPayout) (rows : HandRows) {pots : List Pot}
    → IsConsistent rows
    → All HasChips ss
    → total_paid ss ≤ℤ rows.round.pot_amount
    → validate_payouts_against_side_pots rows.players ss rows.round.pot_amount ≡ ok pots
    → All (IsPayout rows.players) ss
accepted-IsPayout ss rows {pots} con chips no_more valid =
    let (same, fine) = (validate_payouts_iff rows.players ss rows.round.pot_amount pots).0 valid in
    elim fine [
      | inl empty ↦
          payouts_of_nothing rows.players ss chips
            (subst (λ x. total_paid ss ≤ℤ x) (nothing_there same empty) no_more)
      | inr payable ↦ each same ss payable chips
    ]
  where
    no_pots : (ps : List Pot) → is_empty ps ≡ true → pots_total ps ≡ pos 0
    no_pots [] e = refl
    no_pots (p ∷ ps) e = ground arith

    nothing_there :
        pots ≡ calculate_side_pots (map contribution rows.players)
        → is_empty pots ≡ true
        → rows.round.pot_amount ≡ pos 0
    nothing_there same empty =
        con.sound.pot-eq-committed
        ∙ sym (sum_by-map contribution (λ p. p.committed_this_hand) rows.players)
        ∙ sym (
            calculate_side_pots_total (map contribution rows.players) (
              All-of_map (λ (p : PlayerContribution). pos 0 ≤ℤ p.committed_this_hand) contribution
                rows.players (All-map (λ q sq. ground arith) rows.players con.sound.players)))
        ∙ ap pots_total (sym same)
        ∙ no_pots pots empty

    each :
        pots ≡ calculate_side_pots (map contribution rows.players)
        → (ss : List PotPayout) → All (IsPayable pots) ss
        → All HasChips ss
        → All (IsPayout rows.players) ss
    each same [] h k = tt
    each same (s ∷ ss) h k = (
      payable-IsPayout rows.players s (subst (λ ps. IsPayable ps s) same h.0) k.0,
      each same ss h.1 k.1,
    )
