-- ===== src/Application/StartRound/Laws.antt =====
-- The rows of a new round: consistent, and holding the chips that the players brought.
use poker_room_backend.Prelude.{
  ℤ, pos, ◌+ℤ◌, ◌≤ℤ◌, ◌<ℤ◌, ◌≡◌, refl, sym, ap, ap₂, subst, ◌∙◌, String, Bool, true, not, Option,
  none, some, List, [], ◌∷◌, map, arith, int_laws, leb_ℤ, inl, inr, Bool-cases, Option-cases,
  sum_by, sum_by-map, All, All-map, All-select, All-find_first, All-of_map, select, All-IsIn, IsIn,
}
use poker_room_backend.Prelude.Sorting.{All-sorted}
use poker_room_backend.Domain.Constants.{GameEventType, game_is_active}
use poker_room_backend.Domain.Exceptions.{ok, >>=-eq-ok, raise_if-eq-ok}
use poker_room_backend.Domain.Models.{Game, RoundPlayer}
use poker_room_backend.Domain.RoomConfig.{
  BlindLevelConfig, PlayerConfig, RoomConfig, blind_level, active_players, is_playing,
}
use poker_room_backend.Engine.BlindPosting.{SeatPlayer, PostedPlayer, Blinds, post_blinds_and_antes}
use poker_room_backend.Engine.BlindPosting.Laws.{
  IsPostable, IsPosted, AllPosted, All-posted, post_blinds_and_antes_lem, highest_bet_nonneg,
}
use poker_room_backend.Engine.ActionPipeline.Invariant.{IsSound, IsSoundPlayer}
use poker_room_backend.Application.Rows.{HandRows, add_event, ledger_row, get_hand_state}
use poker_room_backend.Application.Consistency.{
  IsConsistent, chips_of, ledger_pot, get_hand_state_pot,
}
use poker_room_backend.Ledger.HandLedger.Laws.{pot_effect}
use poker_room_backend.Application.StartRound.{
  StartRoundRequest, RoundIds, level_of, ante_amount, may_start, seat_player, blinds_of,
  round_player, posting_entry, posting_entries, new_rows, level_or_raise, start_round,
}

-- The active players have chips.
active_players-chips :
    (config : RoomConfig) → All (λ p. pos 0 <ℤ p.chip_count) (active_players config)
unfolding active_players
active_players-chips config =
    All-sorted (λ p. pos 0 <ℤ p.chip_count) (λ p. p.seat_number) (select is_playing config.players)
      (All-map (λ p h. playing p h.1) (select is_playing config.players)
        (All-select (λ p. IsIn p config.players) is_playing config.players
          (All-IsIn config.players)))
  where
    playing : (p : PlayerConfig) → is_playing p ≡ true → pos 0 <ℤ p.chip_count
    playing p h = ground arith

posting_effect :
    (entry_id : String → String) (round_id : String) (game : Game) (pp : PostedPlayer)
    → pot_effect (ledger_row (posting_entry entry_id round_id game pp)) ≡ pp.committed_this_hand
posting_effect entry_id round_id game pp = ground arith

-- The postings that are written add up to what was posted: those left out are of no chip.
ledger_pot-posting_entries :
    (entry_id : String → String) (round_id : String) (game : Game) (pps : List PostedPlayer)
    → All (λ pp. pos 0 ≤ℤ pp.committed_this_hand) pps
    → ledger_pot (posting_entries entry_id round_id game pps)
      ≡ sum_by (λ pp. pp.committed_this_hand) pps
unfolding posting_entries
ledger_pot-posting_entries entry_id round_id game [] h = refl
ledger_pot-posting_entries entry_id round_id game (pp ∷ pps) h =
    elim (Bool-cases (leb_ℤ pp.committed_this_hand (pos 0))) [
      | inl nothing ↦
          rw (nothing, ledger_pot-posting_entries entry_id round_id game pps h.1) (grind int_laws)
      | inr chips ↦ rw chips (
          ap₂ ◌+ℤ◌ (posting_effect entry_id round_id game pp)
            (ledger_pot-posting_entries entry_id round_id game pps h.1))
    ]

posted-IsSoundPlayer :
    (b : Blinds) (highest : ℤ) (s : SeatPlayer) (pp : PostedPlayer)
    → IsPosted b s pp
    → pp.committed_this_street ≤ℤ highest
    → IsSoundPlayer highest (round_player pp)
posted-IsSoundPlayer b highest s pp h fits = record {
  stack_nonneg = h.stack_nonneg;
  street_nonneg = h.committed_nonneg;
  street-le-hand = grind (int_laws, h.same_committed);
  street-le-highest = fits;
  all_in_if = λ e. grind (int_laws, h.all_in_if e);
  chips_if = h.chips_if;
  folded_if = λ e. ground arith;
}

pub posted_sound :
    (b : Blinds) (highest : ℤ) (ss : List SeatPlayer) (pps : List PostedPlayer)
    → AllPosted b ss pps
    → All (λ pp. pp.committed_this_street ≤ℤ highest) pps
    → All (IsSoundPlayer highest) (map round_player pps)
posted_sound b highest [] [] h fits = tt
posted_sound b highest [] (pp ∷ pps) h fits = absurd h
posted_sound b highest (s ∷ ss) [] h fits = absurd h
posted_sound b highest (s ∷ ss) (pp ∷ pps) h fits =
    (posted-IsSoundPlayer b highest s pp h.0 fits.0, posted_sound b highest ss pps h.1 fits.1)

-- The players who take part, with the chips that they bring.
abbrev pub seated : RoomConfig → List SeatPlayer
seated config = map seat_player (active_players config)

posted_ids :
    (b : Blinds) (ps : List PlayerConfig) (pps : List PostedPlayer)
    → AllPosted b (map seat_player ps) pps
    → map (λ rp. rp.player_id) (map round_player pps) ≡ map (λ p. p.player_id) ps
posted_ids b [] [] h = refl
posted_ids b [] (pp ∷ pps) h = absurd h
posted_ids b (p ∷ ps) [] h = absurd h
posted_ids b (p ∷ ps) (pp ∷ pps) h = ap₂ ◌∷◌ h.0.same_id (posted_ids b ps pps h.1)

module _ (ids : RoundIds) (game : Game) (config : RoomConfig) (level : BlindLevelConfig)
    (first_seat : ℤ) (fair : IsPostable (blinds_of game level (ante_amount config level))) where
  abbrev blinds : Blinds
  blinds = blinds_of game level (ante_amount config level)

  abbrev pps : List PostedPlayer
  pps = (post_blinds_and_antes (seated config) blinds).players

  abbrev rows : HandRows
  rows = new_rows ids game config level first_seat

  seated-chips : All (λ s. pos 0 <ℤ s.stack) (seated config)
  seated-chips =
      All-of_map (λ (s : SeatPlayer). pos 0 <ℤ s.stack) seat_player (active_players config)
        (active_players-chips config)

  posted : AllPosted blinds (seated config) pps
  posted = (post_blinds_and_antes_lem (seated config) blinds fair seated-chips).0

  hand_nonneg : All (λ pp. pos 0 ≤ℤ pp.committed_this_hand) pps
  hand_nonneg =
      All-posted (λ pp. pos 0 ≤ℤ pp.committed_this_hand) blinds
        (λ s pp h. subst (λ x. pos 0 ≤ℤ x) h.same_committed h.committed_nonneg) (seated config) pps
        posted

  pot_posted : rows.round.pot_amount ≡ sum_by (λ pp. pp.committed_this_hand) pps
  unfolding new_rows
  pot_posted = (post_blinds_and_antes_lem (seated config) blinds fair seated-chips).2

  rows-IsSound : IsSound rows.round rows.players
  unfolding new_rows
  rows-IsSound = record {
    highest_nonneg = highest_bet_nonneg (seated config) blinds posted;
    min_raise_nonneg = fair.big_nonneg;
    version_pos = omega arith;
    big_blind_nonneg = fair.big_nonneg;
    pot-eq-committed =
        pot_posted ∙ sym (sum_by-map round_player (λ rp. rp.committed_this_hand) pps);
    players =
        posted_sound blinds _ (seated config) pps posted
          (post_blinds_and_antes_lem (seated config) blinds fair seated-chips).3;
  }

  rows-ledger : ledger_pot rows.ledger ≡ rows.round.pot_amount
  unfolding new_rows
  rows-ledger =
      ledger_pot-posting_entries ids.entry_id ids.round_id game pps hand_nonneg ∙ sym pot_posted

  rows-IsConsistent : IsConsistent rows
  rows-IsConsistent = record {
    sound = rows-IsSound;
    ledger_agrees = get_hand_state_pot rows ∙ rows-ledger;
  }

  rows-players :
      map (λ rp. rp.player_id) rows.players ≡ map (λ p. p.player_id) (active_players config)
  unfolding new_rows
  rows-players = posted_ids blinds (active_players config) pps posted

  rows-chips : chips_of rows ≡ sum_by (λ p. p.chip_count) (active_players config)
  unfolding new_rows
  rows-chips =
      ap (λ x. x +ℤ (post_blinds_and_antes (seated config) blinds).pot_total)
        (sum_by-map round_player (λ rp. rp.stack_remaining) pps)
      ∙ (post_blinds_and_antes_lem (seated config) blinds fair seated-chips).1
      ∙ sum_by-map seat_player (λ s. s.stack) (active_players config)

started :
    (ids : RoundIds) (game : Game) (config : RoomConfig) (level : BlindLevelConfig)
    (seat : Option ℤ) {rows : HandRows}
    → (elim seat as (λ _. Option HandRows) [
      | none ↦ none
      | some first_seat ↦
          some (add_event GameEventType.round_started (new_rows ids game config level first_seat))
    ])
      ≡ some rows
    → (first_seat : ℤ) × (rows
        ≡ add_event GameEventType.round_started (new_rows ids game config level first_seat))
started ids game config level none h = ground arith
started ids game config level (some first_seat) h = (first_seat, cc)

-- The amounts of every blind level are 0 or more.
abbrev pub HasFairLevels : RoomConfig → Type 0
HasFairLevels config =
    All (λ l. (pos 0 ≤ℤ l.small_blind) × (pos 0 ≤ℤ l.big_blind)) config.blind_levels

level_of-fair :
    (game : Game) (config : RoomConfig) {level : BlindLevelConfig}
    → HasFairLevels config
    → level_of game config ≡ some level
    → (pos 0 ≤ℤ level.small_blind) × (pos 0 ≤ℤ level.big_blind)
unfolding level_of blind_level
level_of-fair game config {level} fair h =
    elim (Option-cases (blind_level config game.current_blind_level)) [
      | inl missing ↦ first config.blind_levels fair (rw (level_of, missing) at h)
      | inr (l, e) ↦
          (All-find_first (λ l. (pos 0 ≤ℤ l.small_blind) × (pos 0 ≤ℤ l.big_blind)) _
            config.blind_levels fair (e ∙ rw (level_of, e) at h)).0
    ]
  where
    same : (l : BlindLevelConfig) → some l ≡ some level → l ≡ level
    same l e = cc

    first :
        (ls : List BlindLevelConfig)
        → All (λ l. (pos 0 ≤ℤ l.small_blind) × (pos 0 ≤ℤ l.big_blind)) ls
        → (elim ls as (λ _. Option BlindLevelConfig) [ [] ↦ none | l ∷ _ ↦ some l ]) ≡ some level
        → (pos 0 ≤ℤ level.small_blind) × (pos 0 ≤ℤ level.big_blind)
    first [] h e = ground arith
    first (l ∷ ls) h e =
        subst (λ l. (pos 0 ≤ℤ l.small_blind) × (pos 0 ≤ℤ l.big_blind)) (same l e) h.0

-- A round that is started, by its guards.
record StartedRound (ids : RoundIds) (game : Game) (config : RoomConfig) (rows : HandRows)
    : Type 0 where
  level : BlindLevelConfig
  first_seat : ℤ
  fair : IsPostable (blinds_of game level (ante_amount config level))
  result : rows ≡ add_event GameEventType.round_started (new_rows ids game config level first_seat)

start_round-StartedRound :
    (ids : RoundIds) (game : Game) (has_active : Bool) (config : RoomConfig)
    (data' : StartRoundRequest) {rows : HandRows}
    → HasFairLevels config
    → start_round ids game has_active config data' ≡ ok (some rows)
    → StartedRound ids game config rows
unfolding start_round
start_round-StartedRound ids game has_active config data' {rows} fair h =
    let (_, h1) = raise_if-eq-ok (not (game_is_active game.status)) _ _ h in
    let (_, h2) = raise_if-eq-ok has_active _ _ h1 in
    let (level, found, h3) = >>=-eq-ok (level_or_raise (level_of game config)) _ h2 in
    let (_, h4) = raise_if-eq-ok (not (may_start game config data')) _ _ h3 in
    let (first_seat, e) = started ids game config level _ (ok_inj h4) in
    let (small, big) = level_of-fair game config fair (level_found (level_of game config) found) in
    record {
      level = level;
      first_seat = first_seat;
      fair = record { small_nonneg = small; big_nonneg = big };
      result = e;
    }
  where
    ok_inj : {x y : Option HandRows} → ok x ≡ ok y → x ≡ y
    ok_inj e = cc

    level_found :
        (o : Option BlindLevelConfig) {l : BlindLevelConfig} → level_or_raise o ≡ ok l → o ≡ some l
    level_found none e = ground arith
    level_found (some l) e = cc

-- Under blind levels of 0 or more, a round that is started begins with consistent rows: the state of
-- the engine is sound, the ledger accounts for the posted pot, and the stacks and the pot hold the
-- chips that the active players brought.
pub start_round_lem :
    (ids : RoundIds) (game : Game) (has_active : Bool) (config : RoomConfig)
    (data' : StartRoundRequest) {rows : HandRows}
    → HasFairLevels config
    → start_round ids game has_active config data' ≡ ok (some rows)
    → IsConsistent rows × (chips_of rows ≡ sum_by (λ p. p.chip_count) (active_players config))
unfolding get_hand_state
start_round_lem ids game has_active config data' {rows} fair h =
    let s = start_round-StartedRound ids game has_active config data' fair h in
    let c = rows-IsConsistent ids game config s.level s.first_seat s.fair in
    (
      subst IsConsistent (sym s.result)
          (record { sound = c.sound; ledger_agrees = c.ledger_agrees }),
      ap chips_of s.result ∙ rows-chips ids game config s.level s.first_seat s.fair,
    )

-- The players of a round that is started are the active players of the room, in their order.
pub start_round_players :
    (ids : RoundIds) (game : Game) (has_active : Bool) (config : RoomConfig)
    (data' : StartRoundRequest) {rows : HandRows}
    → HasFairLevels config
    → start_round ids game has_active config data' ≡ ok (some rows)
    → map (λ rp. rp.player_id) rows.players ≡ map (λ p. p.player_id) (active_players config)
start_round_players ids game has_active config data' fair h =
    let s = start_round-StartedRound ids game has_active config data' fair h in
    ap (λ rows. map (λ (rp : RoundPlayer). rp.player_id) rows.players) s.result
    ∙ rows-players ids game config s.level s.first_seat s.fair
