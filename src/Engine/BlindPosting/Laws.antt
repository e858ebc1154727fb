-- ===== src/Engine/BlindPosting/Laws.antt =====
-- Posting moves chips from the stacks to the pot, never more than a player has.
use poker_room_backend.Prelude.{
  ℤ, pos, ◌+ℤ◌, ◌-ℤ◌, ◌≤ℤ◌, ◌<ℤ◌, ◌≡◌, refl, true, false, List, [], ◌∷◌, map, inl, inr, arith,
  int_laws, Bool-cases, sum_by, All, All-map, ltb_ℤ, max_ℤ, eq_of_parts, IsIn, here, there,
}
use mathlib.Core.Path.{ap₂}
use poker_room_backend.Engine.BlindPosting.{
  SeatPlayer, PostedPlayer, Blinds, ante_of, blind_of, post_player, max_committed,
  post_blinds_and_antes,
}

-- The amounts that the settings of a room allow, and a player who has chips.
pub record IsPostable (b : Blinds) : Type 0 where
  pub small_nonneg : pos 0 ≤ℤ b.small_blind_amount
  pub big_nonneg : pos 0 ≤ℤ b.big_blind_amount

-- One posted player, against the seat it came from.
pub record IsPosted (b : Blinds) (s : SeatPlayer) (p : PostedPlayer) : Type 0 where
  pub same_id : p.player_id ≡ s.player_id
  pub same_seat : p.seat_number ≡ s.seat_number
  pub chips_kept : p.stack_remaining +ℤ p.committed_this_hand ≡ s.stack
  pub stack_nonneg : pos 0 ≤ℤ p.stack_remaining
  pub committed_nonneg : pos 0 ≤ℤ p.committed_this_street
  pub same_committed : p.committed_this_street ≡ p.committed_this_hand
  pub all_in_if : p.is_all_in ≡ true → p.stack_remaining ≡ pos 0
  pub chips_if : p.is_all_in ≡ false → pos 0 <ℤ p.stack_remaining

ante_of_bounds :
    (b : Blinds) (stack : ℤ)
    → pos 0 ≤ℤ stack
    → (pos 0 ≤ℤ ante_of b stack) × (ante_of b stack ≤ℤ stack)
unfolding ante_of
ante_of_bounds b stack h = ground arith

blind_of_bounds :
    (b : Blinds) (seat remaining : ℤ)
    → IsPostable b
    → pos 0 ≤ℤ remaining
    → (pos 0 ≤ℤ blind_of b seat remaining) × (blind_of b seat remaining ≤ℤ remaining)
unfolding blind_of
blind_of_bounds b seat remaining ok h = ground arith

post_player-IsPosted :
    (b : Blinds) (s : SeatPlayer) → IsPostable b → pos 0 <ℤ s.stack → IsPosted b s (post_player b s)
unfolding post_player
post_player-IsPosted b s ok chips =
    let ante = ante_of b s.stack in
    let rest = s.stack -ℤ ante in
    let (ante_nonneg, ante_fits) = ante_of_bounds b s.stack (omega arith) in
    let left : pos 0 ≤ℤ rest = omega int_laws in
    let (blind_nonneg, blind_fits) = blind_of_bounds b s.seat_number rest ok left in
    let blind = blind_of b s.seat_number rest in
    record {
      same_id = refl;
      same_seat = refl;
      chips_kept = omega int_laws;
      stack_nonneg = omega int_laws;
      committed_nonneg = omega int_laws;
      same_committed = refl;
      all_in_if = λ h. ground (arith, eq_of_parts (rest -ℤ blind) (pos 0));
      chips_if = λ h. grind int_laws;
    }

-- Each posted player came from the seat at the same place.
abbrev pub AllPosted : Blinds → List SeatPlayer → List PostedPlayer → Type 0
AllPosted b [] [] = Unit
AllPosted b (s ∷ ss) (p ∷ ps) = IsPosted b s p × AllPosted b ss ps
AllPosted b _ _ = ⊥

AllPosted-map :
    (b : Blinds) (ss : List SeatPlayer)
    → IsPostable b
    → All (λ s. pos 0 <ℤ s.stack) ss
    → AllPosted b ss (map (post_player b) ss)
AllPosted-map b [] ok h = tt
AllPosted-map b (s ∷ ss) ok h = (post_player-IsPosted b s ok h.0, AllPosted-map b ss ok h.1)

pub posted_total :
    (b : Blinds) (ss : List SeatPlayer) (ps : List PostedPlayer)
    → AllPosted b ss ps
    → sum_by (λ p. p.stack_remaining) ps +ℤ sum_by (λ p. p.committed_this_hand) ps
      ≡ sum_by (λ s. s.stack) ss
posted_total b [] [] h = omega int_laws
posted_total b [] (p ∷ ps) h = absurd h
posted_total b (s ∷ ss) [] h = absurd h
posted_total b (s ∷ ss) (p ∷ ps) h =
    rw (← posted_total b ss ps h.1, ← h.0.chips_kept) (omega int_laws)

pub hand-eq-street :
    (b : Blinds) (ss : List SeatPlayer) (ps : List PostedPlayer)
    → AllPosted b ss ps
    → sum_by (λ p. p.committed_this_street) ps ≡ sum_by (λ p. p.committed_this_hand) ps
hand-eq-street b [] [] h = refl
hand-eq-street b [] (p ∷ ps) h = absurd h
hand-eq-street b (s ∷ ss) [] h = absurd h
hand-eq-street b (s ∷ ss) (p ∷ ps) h = ap₂ ◌+ℤ◌ h.0.same_committed (hand-eq-street b ss ps h.1)

-- `max` is a bound, and is reached.
committed-le-max :
    (ps : List PostedPlayer) → All (λ p. p.committed_this_street ≤ℤ max_committed ps) ps
committed-le-max [] = tt
committed-le-max (p ∷ []) = (omega arith, tt)
committed-le-max (p ∷ q ∷ ps) =
    (ground arith, All-map (λ x h. ground arith) (q ∷ ps) (committed-le-max (q ∷ ps)))

max_committed-mem :
    (p : PostedPlayer) (ps : List PostedPlayer)
    → (q : PostedPlayer) × IsIn q (p ∷ ps) × (q.committed_this_street ≡ max_committed (p ∷ ps))
max_committed-mem p [] = (p, here [], refl)
max_committed-mem p (q ∷ ps) =
    max_of_two p (q ∷ ps) (max_committed (q ∷ ps)) (max_committed-mem q ps)
  where
    max_of_two :
        (x : PostedPlayer) (xs : List PostedPlayer) (m : ℤ)
        → (y : PostedPlayer) × IsIn y xs × (y.committed_this_street ≡ m)
        → (y : PostedPlayer) × IsIn y (x ∷ xs)
          × (y.committed_this_street ≡ max_ℤ x.committed_this_street m)
    max_of_two x xs m (y, at, e) = elim (Bool-cases (ltb_ℤ x.committed_this_street m)) [
      | inl below ↦ (y, there x at, rw below e)
      | inr above ↦ (x, here xs, rw above refl)
    ]

-- With blinds of 0 or more and chips in every stack, posting keeps every player's chips, takes no
-- more than a player has, marks all-in exactly those with no chip left, puts what was taken in the
-- pot, and sets the highest bet to a bound on what each player has committed.
pub post_blinds_and_antes_lem :
    (ss : List SeatPlayer) (b : Blinds)
    → IsPostable b
    → All (λ s. pos 0 <ℤ s.stack) ss
    → let r = post_blinds_and_antes ss b in
      AllPosted b ss r.players
      × (sum_by (λ p. p.stack_remaining) r.players +ℤ r.pot_total ≡ sum_by (λ s. s.stack) ss)
      × (r.pot_total ≡ sum_by (λ p. p.committed_this_hand) r.players)
      × All (λ p. p.committed_this_street ≤ℤ r.current_highest_bet) r.players
unfolding post_blinds_and_antes
post_blinds_and_antes_lem ss b ok h =
    let posted = AllPosted-map b ss ok h in
    let same = hand-eq-street b ss (map (post_player b) ss) posted in
    (
      posted,
      rw same (posted_total b ss (map (post_player b) ss) posted),
      same,
      committed-le-max (map (post_player b) ss),
    )

-- At a table with a player, some player has committed the highest bet.
pub highest_bet_reached :
    (s : SeatPlayer) (ss : List SeatPlayer) (b : Blinds)
    → let r = post_blinds_and_antes (s ∷ ss) b in
      (q : PostedPlayer) × IsIn q r.players × (q.committed_this_street ≡ r.current_highest_bet)
unfolding post_blinds_and_antes
highest_bet_reached s ss b = max_committed-mem (post_player b s) (map (post_player b) ss)

max_committed_nonneg :
    (ps : List PostedPlayer)
    → All (λ p. pos 0 ≤ℤ p.committed_this_street) ps
    → pos 0 ≤ℤ max_committed ps
max_committed_nonneg [] h = omega arith
max_committed_nonneg (p ∷ []) h = h.0
max_committed_nonneg (p ∷ q ∷ ps) h = ground (arith, max_committed_nonneg (q ∷ ps) h.1)

-- What holds of every seat that was posted holds of every posted player.
pub All-posted :
    (P : PostedPlayer → Type 0) (b : Blinds)
    → ((s : SeatPlayer) (p : PostedPlayer) → IsPosted b s p → P p)
    → (ss : List SeatPlayer) (ps : List PostedPlayer) → AllPosted b ss ps
    → All P ps
All-posted P b give [] [] h = tt
All-posted P b give [] (p ∷ ps) h = absurd h
All-posted P b give (s ∷ ss) [] h = absurd h
All-posted P b give (s ∷ ss) (p ∷ ps) h = (give s p h.0, All-posted P b give ss ps h.1)

pub highest_bet_nonneg :
    (ss : List SeatPlayer) (b : Blinds)
    → AllPosted b ss (post_blinds_and_antes ss b).players
    → pos 0 ≤ℤ (post_blinds_and_antes ss b).current_highest_bet
unfolding post_blinds_and_antes
highest_bet_nonneg ss b h = max_committed_nonneg (map (post_player b) ss) (
    All-posted (λ p. pos 0 ≤ℤ p.committed_this_street) b (λ s p posted. posted.committed_nonneg) ss
      _ h)
