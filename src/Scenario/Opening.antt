-- ===== src/Scenario/Opening.antt =====
-- The opening of a scenario: the blinds are written to the players who post them
-- (services/game-service/app/domain/scenario_runner.py).
use poker_room_backend.Prelude.{
  ℤ, pos, ◌+ℤ◌, ◌≤ℤ◌, ◌<ℤ◌, ◌≡◌, ◌≢◌, ◌⊎◌, refl, sym, ap, ap₂, subst, ◌∙◌, String, true, false,
  none, List, [], ◌∷◌, map, arith, inl, inr, Bool-cases, str_eq, eq_iff, sum_by, sum_by-map, All,
  All-map, change_first,
}
use poker_room_backend.Prelude.Distinct.{DistinctBy}
use poker_room_backend.Domain.Models.{Round, RoundPlayer}
use poker_room_backend.Engine.BlindPosting.{
  SeatPlayer, PostedPlayer, BlindPostingResult, Blinds, post_blinds_and_antes,
}
use poker_room_backend.Engine.BlindPosting.Laws.{
  IsPostable, AllPosted, post_blinds_and_antes_lem, highest_bet_nonneg,
}
use poker_room_backend.Engine.ActionPipeline.Conservation.{chips}
use poker_room_backend.Engine.ActionPipeline.Invariant.{IsSound}
use poker_room_backend.Application.StartRound.{round_player}
use poker_room_backend.Application.StartRound.Laws.{posted_sound}
use poker_room_backend.Scenario.{
  PlayerSetup, HandScenario, Running, scenario_player, scenario_round, scenario_seat,
  scenario_blinds, acting_at, write_posting, write_postings, post_blinds, opening,
}

-- Blinds of 0 or more, and different players with chips.
pub record IsFairScenario (s : HandScenario) : Type 0 where
  pub small_nonneg : pos 0 ≤ℤ s.blinds.small
  pub big_nonneg : pos 0 ≤ℤ s.blinds.big
  pub stacks_pos : All (λ ps. pos 0 <ℤ ps.stack) s.players
  pub distinct : DistinctBy (λ ps. ps.player_id) s.players

abbrev pub seats_of : List PlayerSetup → List SeatPlayer
seats_of pss = map scenario_seat (map scenario_player pss)

-- Postings of others leave a player alone.
write_postings_skip :
    (pps : List PostedPlayer) (rp : RoundPlayer) (rps : List RoundPlayer)
    → All (λ pp. rp.player_id ≢ pp.player_id) pps
    → write_postings pps (rp ∷ rps) ≡ rp ∷ write_postings pps rps
unfolding write_postings change_first
write_postings_skip [] rp rps h = refl
write_postings_skip (pp ∷ pps) rp rps h = elim (Bool-cases (str_eq rp.player_id pp.player_id)) [
  | inl it ↦ absurd (h.0 ((eq_iff rp.player_id pp.player_id).0 it))
  | inr other ↦ rw (write_postings, change_first, other) (write_postings_skip pps rp _ h.1)
]

-- The postings of other seats are those of other players.
others :
    (b : Blinds) (player_id : String) (pss : List PlayerSetup) (pps : List PostedPlayer)
    → AllPosted b (seats_of pss) pps
    → All (λ ps. player_id ≢ ps.player_id) pss
    → All (λ pp. player_id ≢ pp.player_id) pps
others b player_id [] [] p h = tt
others b player_id [] (pp ∷ pps) p h = absurd p
others b player_id (ps ∷ pss) [] p h = absurd p
others b player_id (ps ∷ pss) (pp ∷ pps) p h =
    ((λ e. h.0 (e ∙ p.0.same_id)), others b player_id pss pps p.1 h.1)

-- The postings are written to the players that they are of.
write_postings-eq :
    (b : Blinds) (pss : List PlayerSetup) (pps : List PostedPlayer)
    → AllPosted b (seats_of pss) pps
    → DistinctBy (λ ps. ps.player_id) pss
    → write_postings pps (map scenario_player pss) ≡ map round_player pps
unfolding write_postings change_first
write_postings-eq b [] [] p d = refl
write_postings-eq b [] (pp ∷ pps) p d = absurd p
write_postings-eq b (ps ∷ pss) [] p d = absurd p
write_postings-eq b (ps ∷ pss) (pp ∷ pps) p d =
    ap (write_postings pps) (written (Bool-cases (str_eq ps.player_id pp.player_id)))
    ∙ write_postings_skip pps (round_player pp) (map scenario_player pss)
        (others b pp.player_id pss pps p.1 (All-map (λ x ne e. ne (sym p.0.same_id ∙ e)) pss d.0))
    ∙ ap (λ rps. round_player pp ∷ rps) (write_postings-eq b pss pps p.1 d.1)
  where
    same : write_posting pp (scenario_player ps) ≡ round_player pp
    same =
        ap₂ (λ i n. record (round_player pp) { player_id = i; seat_number = n }) (sym p.0.same_id)
          (sym p.0.same_seat)

    written :
        (str_eq ps.player_id pp.player_id ≡ true) ⊎ (str_eq ps.player_id pp.player_id ≡ false)
        → change_first
            (λ rp. str_eq rp.player_id pp.player_id)
            (write_posting pp)
            (map scenario_player (ps ∷ pss))
          ≡ round_player pp ∷ map scenario_player pss
    written (inl it) = rw it (ap (λ rp. rp ∷ map scenario_player pss) same)
    written (inr other) = absurd (misses other)
      where
        misses : str_eq ps.player_id pp.player_id ≡ false → ⊥
        misses e = differs (rw ((eq_iff ps.player_id pp.player_id).1 (sym p.0.same_id)) at e)
          where
            differs : true ≡ false → ⊥
            differs e = ground arith

-- Sound, and with the chips that the players brought.
abbrev pub IsOnTable : HandScenario → Running → Type 0
IsOnTable s h =
    IsSound h.game_round h.round_players
    × (chips h.game_round h.round_players ≡ sum_by (λ ps. ps.stack) s.players)

-- The postings of a scenario's players for its blinds.
abbrev pub postings : HandScenario → ℤ → ℤ → BlindPostingResult
postings s small big = post_blinds_and_antes (seats_of s.players) (record {
  small_blind_seat = small;
  big_blind_seat = big;
  small_blind_amount = s.blinds.small;
  big_blind_amount = s.blinds.big;
  ante_amount = s.blinds.ante;
})

-- The opened hand: every player as posted, and the round with the pot and the highest bet of the postings.
pub record IsOpened (blank : Round) (s : HandScenario) (small big first : ℤ) (h : Running)
    : Type 0 where
  pub players_posted : h.round_players ≡ map round_player (postings s small big).players
  pub round_opened : h.game_round ≡ record (scenario_round blank s small big) {
    pot_amount = (postings s small big).pot_total;
    current_highest_bet = (postings s small big).current_highest_bet;
    acting_player_id = acting_at first (map scenario_player s.players) blank.acting_player_id;
  }
  pub no_error : h.last_error ≡ none

brought :
    (pss : List PlayerSetup) → sum_by (λ x. x.stack) (seats_of pss) ≡ sum_by (λ ps. ps.stack) pss
brought [] = refl
brought (ps ∷ pss) = ap (λ x. ps.stack +ℤ x) (brought pss)

seats_pos :
    (pss : List PlayerSetup)
    → All (λ ps. pos 0 <ℤ ps.stack) pss
    → All (λ x. pos 0 <ℤ x.stack) (seats_of pss)
seats_pos [] h = tt
seats_pos (ps ∷ pss) h = (h.0, seats_pos pss h.1)

module _ (blank : Round) (s : HandScenario) (seats : ℤ × ℤ × ℤ) (fair : IsFairScenario s)
    (version : pos 0 <ℤ blank.state_version) where
  before : Round
  before = scenario_round blank s seats.0 seats.1

  blinds : Blinds
  blinds = scenario_blinds s before

  postable : IsPostable blinds
  unfolding blinds before
  postable = record { small_nonneg = fair.small_nonneg; big_nonneg = fair.big_nonneg }

  pps : List PostedPlayer
  pps = (post_blinds_and_antes (seats_of s.players) blinds).players

  lem :
      AllPosted blinds (seats_of s.players) pps
      × (sum_by (λ p. p.stack_remaining) pps
            +ℤ (post_blinds_and_antes (seats_of s.players) blinds).pot_total
          ≡ sum_by (λ x. x.stack) (seats_of s.players))
      × ((post_blinds_and_antes (seats_of s.players) blinds).pot_total
          ≡ sum_by (λ p. p.committed_this_hand) pps)
      × All
          (λ p.
            p.committed_this_street
            ≤ℤ (post_blinds_and_antes (seats_of s.players) blinds).current_highest_bet)
          pps
  unfolding pps
  lem =
      post_blinds_and_antes_lem (seats_of s.players) blinds postable
        (seats_pos s.players fair.stacks_pos)

  same_players : (opening blank s seats).round_players ≡ map round_player pps
  unfolding opening post_blinds blinds before pps
  same_players = write_postings-eq blinds s.players pps lem.0 fair.distinct

  opening-IsSound : IsSound (opening blank s seats).game_round (map round_player pps)
  unfolding opening post_blinds blinds before pps
  opening-IsSound = record {
    highest_nonneg = highest_bet_nonneg (seats_of s.players) blinds lem.0;
    min_raise_nonneg = fair.big_nonneg;
    version_pos = version;
    big_blind_nonneg = fair.big_nonneg;
    pot-eq-committed = lem.2 ∙ sym (sum_by-map round_player (λ rp. rp.committed_this_hand) pps);
    players = posted_sound blinds _ (seats_of s.players) pps lem.0 lem.3;
  }

  opening-chips :
      chips (opening blank s seats).game_round (map round_player pps)
      ≡ sum_by (λ ps. ps.stack) s.players
  unfolding opening post_blinds blinds before pps
  opening-chips =
      ap (λ x. x +ℤ (post_blinds_and_antes (seats_of s.players) blinds).pot_total)
        (sum_by-map round_player (λ rp. rp.stack_remaining) pps)
      ∙ lem.1
      ∙ brought s.players

  pub opening-IsOnTable : IsOnTable s (opening blank s seats)
  opening-IsOnTable =
      subst
        (λ rps.
          IsSound (opening blank s seats).game_round rps
          × (chips (opening blank s seats).game_round rps ≡ sum_by (λ ps. ps.stack) s.players))
        (sym same_players) (opening-IsSound, opening-chips)

  pub opening-applied : (opening blank s seats).applied ≡ 0
  unfolding opening
  opening-applied = refl

  pub opening-IsOpened : IsOpened blank s seats.0 seats.1 seats.2 (opening blank s seats)
  unfolding opening post_blinds blinds before pps
  opening-IsOpened = record { players_posted = same_players; round_opened = refl; no_error = refl }
