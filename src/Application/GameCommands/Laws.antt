-- ===== src/Application/GameCommands/Laws.antt =====
-- What a started game is, and what raised blinds are.
use poker_room_backend.Prelude.{
  ℕ, ◌≤◌, ℤ, pos, ◌+ℤ◌, ◌≤ℤ◌, ◌≡◌, refl, sym, ap, subst, ◌∙◌, String, Bool, true, false, not,
  Option, none, some, List, [], ◌∷◌, ◌++◌, arith, int_laws, inl, inr, Bool-cases, eq_iff, ltb,
  leb_ℤ, length, select, List-cases,
}
use poker_room_backend.Domain.Constants.{game_is_active}
use poker_room_backend.Domain.Exceptions.{
  DomainError, Result, ok, err, ◌>>◌, >>=-eq-ok, raise_if-eq-ok,
}
use poker_room_backend.Domain.Models.{Game}
use poker_room_backend.Domain.RoomConfig.{BlindLevelConfig, RoomConfig, active_seats, blind_level}
use poker_room_backend.Engine.Positions.{assign_positions}
use poker_room_backend.Engine.Positions.Laws.{IsPlaced, first_index, assign_positions_lem}
use poker_room_backend.Engine.SidePots.{is_empty}
use poker_room_backend.Application.Rows.{OutboxEvent}
use poker_room_backend.Application.HandCompletion.{max_level}
use poker_room_backend.Application.Snapshot.{load_room_snapshot}
use poker_room_backend.Application.StartRound.{level_of}
use poker_room_backend.Application.GameCommands.{
  GameIds, StartedGame, is_active_in, active_games, new_game, started_game, start_new_game,
  start_game, new_level_or_raise, advance_blinds,
}

abbrev pub seats_of : Game → ℤ × ℤ × ℤ
seats_of g = (g.current_dealer_seat, g.current_small_blind_seat, g.current_big_blind_seat)

-- A game that a command started in a room.
pub record IsStarted (room_id : String) (g : StartedGame) : Type 0 where
  pub only_one : active_games room_id g.games ≡ g.game ∷ []
  pub first_level : g.game.current_blind_level ≡ pos 1
  pub has_levels : is_empty g.snapshot.blind_levels ≡ false
  pub enough_players : 2 ≤ length (active_seats g.snapshot)
  pub placed :
      IsPlaced
        (active_seats g.snapshot)
        (first_index (active_seats g.snapshot) g.snapshot.starting_dealer_seat)
        (seats_of g.game)

select-snoc :
    {A : Type 0} (p : A → Bool) (xs : List A) (x : A)
    → select p xs ≡ []
    → p x ≡ true
    → select p (xs ++ x ∷ []) ≡ x ∷ []
select-snoc p [] x h e = rw e refl
select-snoc p (y ∷ ys) x h e = elim (Bool-cases (p y)) [
  | inl it ↦ absurd (not_nil (rw it at h))
  | inr other ↦ rw other (select-snoc p ys x (rw other at h) e)
]
  where
    not_nil : ¬ (y ∷ select p ys ≡ [])
    not_nil e = ground arith

new_game-active :
    (ids : GameIds) (room_id : String) (seats : ℤ × ℤ × ℤ)
    → is_active_in room_id (new_game ids room_id seats) ≡ true
new_game-active ids room_id seats = rw ((eq_iff room_id room_id).1 refl) refl

-- The part of the command behind the query, with its two guards passed.
seated_outcome :
    (ids : GameIds) (room_id : String) (games : List Game) (config : RoomConfig)
    (marked : Result (Unit {0}))
    → 2 ≤ length (active_seats config)
    → (seats : ℤ × ℤ × ℤ) × IsPlaced
        (active_seats config)
        (first_index (active_seats config) config.starting_dealer_seat)
        seats
      × ((elim (assign_positions (active_seats config) config.starting_dealer_seat)
            as (λ _. Result (Option StartedGame)) [
              | none ↦ ok none
              | some seats ↦ marked >> ok (some (started_game ids room_id games config seats))
            ])
          ≡ (marked >> ok (some (started_game ids room_id games config seats))))
seated_outcome ids room_id games config marked enough =
    let (seats, e, p, _) =
      assign_positions_lem (active_seats config) config.starting_dealer_seat
        (omega (arith, enough)) in
    (seats, p, rw e refl)

start_new_game-IsStarted :
    (ids : GameIds) (room_id : String) (games : List Game) (fetched : Result RoomConfig)
    (marked : Result (Unit {0})) {o : Option StartedGame}
    → active_games room_id games ≡ []
    → start_new_game ids room_id games fetched marked ≡ ok o
    → (g : StartedGame) × (o ≡ some g) × IsStarted room_id g
unfolding start_new_game active_games
start_new_game-IsStarted ids room_id games fetched marked {o} free h =
    let (config, _, h1) = >>=-eq-ok fetched _ h in
    let (levels, h2) = raise_if-eq-ok (is_empty config.blind_levels) _ _ h1 in
    let (few, h3) = raise_if-eq-ok (ltb (length (active_seats config)) 2) _ _ h2 in
    let enough = two_or_more (length (active_seats config)) few in
    let (seats, placed, e) = seated_outcome ids room_id games config marked enough in
    let (_, _, h4) = >>=-eq-ok marked _ (sym e ∙ h3) in
    (
      started_game ids room_id games config seats,
      answer h4,
      record {
        only_one =
            select-snoc (is_active_in room_id) games (new_game ids room_id seats) free
              (new_game-active ids room_id seats);
        first_level = refl;
        has_levels = levels;
        enough_players = enough;
        placed = placed;
      },
    )
  where
    two_or_more : (n : ℕ) → ltb n 2 ≡ false → 2 ≤ n
    two_or_more n h = ground arith

    answer : {g : Option StartedGame} → ok g ≡ ok o → o ≡ g
    answer e = cc

-- In a room with at most one active game, a game that `start_game` accepts is the only active game of
-- the room. It is at level 1 of a room that has a level and two active players or more, with a dealer
-- and blinds on their seats; and the command has no other outcome but an error.
pub start_game_lem :
    (ids : GameIds) (room_id : String) (games : List Game) (fetched : Result RoomConfig)
    (marked : Result (Unit {0})) {o : Option StartedGame}
    → length (active_games room_id games) ≤ 1
    → start_game ids room_id games fetched marked ≡ ok o
    → (g : StartedGame) × (o ≡ some g) × IsStarted room_id g
unfolding start_game
start_game_lem ids room_id games fetched marked {o} one h =
    elim (List-cases (active_games room_id games)) [
      | inl free ↦
          start_new_game-IsStarted ids room_id games fetched marked free
            (rw (start_game, free) at h)
      | inr (g, hs, e) ↦ refused g hs (subst (λ gs. length gs ≤ 1) e one) (rw (start_game, e) at h)
    ]
  where
    refused :
        (g : Game) (hs : List Game)
        → length (g ∷ hs) ≤ 1
        → (elim hs as (λ _. Result (Option StartedGame)) [
          | [] ↦ err DomainError.game_already_exists
          | _ ∷ _ ↦ ok none
        ])
          ≡ ok o
        → (g : StartedGame) × (o ≡ some g) × IsStarted room_id g
    refused g [] le e = absurd (ground arith)
    refused g (_ ∷ _) le e = absurd (omega arith)

-- Raised blinds.
pub record IsRaised (now : ℤ) (game : Game) (snapshot : RoomConfig) (game' : Game)
    (level : BlindLevelConfig) : Type 0 where
  pub was_active : game_is_active game.status ≡ true
  pub one_up : game' ≡ record game {
    current_blind_level = game.current_blind_level +ℤ pos 1;
    level_started_at = some now;
  }
  pub in_bounds : game'.current_blind_level ≤ℤ max_level (load_room_snapshot snapshot)
  pub played_next : level_of game' (load_room_snapshot snapshot) ≡ some level

-- Blinds that are raised go up by one level, of an active game, to no more than the last level of the
-- room, and nothing else of the game changes but the start of the level; and the level that the command
-- answers is the one that the next round is started with.
pub advance_blinds_lem :
    (now : ℤ) (game : Game) (snapshot : RoomConfig) {game' : Game} {level : BlindLevelConfig}
    {event : OutboxEvent}
    → advance_blinds now (some game) snapshot ≡ ok (game', level, event)
    → IsRaised now game snapshot game' level
unfolding advance_blinds level_of
advance_blinds_lem now game snapshot {game'} {level} {event} h =
    let config = load_room_snapshot snapshot in
    let next = game.current_blind_level +ℤ pos 1 in
    let (active, h1) = raise_if-eq-ok (not (game_is_active game.status)) _ _ h in
    let (below, h2) = raise_if-eq-ok (leb_ℤ (max_level config) game.current_blind_level) _ _ h1 in
    let (new_level, found, h3) = >>=-eq-ok (new_level_or_raise (blind_level config next)) _ h2 in
    let same_game : game'
        ≡ record game { current_blind_level = next; level_started_at = some now } =
      cc in
    let same_level : level ≡ new_level = cc in
    let there' = level_there (blind_level config next) found in
    record {
      was_active = ground arith;
      one_up = same_game;
      in_bounds =
          subst (λ (g : Game). g.current_blind_level ≤ℤ max_level config) (sym same_game)
            (step game.current_blind_level (max_level config) below);
      played_next =
          subst (λ (g : Game). level_of g config ≡ some level) (sym same_game)
            (rw (level_of, there') (ap some (sym same_level)));
    }
  where
    step : (a b : ℤ) → leb_ℤ b a ≡ false → a +ℤ pos 1 ≤ℤ b
    step a b h = grind int_laws

    level_there :
        (o : Option BlindLevelConfig) {l : BlindLevelConfig}
        → new_level_or_raise o ≡ ok l
        → o ≡ some l
    level_there none e = ground arith
    level_there (some l) e = cc
