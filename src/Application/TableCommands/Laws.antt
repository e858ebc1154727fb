-- ===== src/Application/TableCommands/Laws.antt =====
-- Pausing and resuming, and the count of the hands.
use poker_room_backend.Prelude.{
  ℕ, suc, ℤ, pos, ◌+ℤ◌, ◌≤ℤ◌, ◌≡◌, refl, sym, ap, subst, Bool, true, not, some, List, [], ◌∷◌,
  arith, int_laws, ltb_ℤ, max_ℤ, length, if◌then◌else◌,
}
use poker_room_backend.Domain.Constants.{GameStatus, game_is_active}
use poker_room_backend.Domain.Exceptions.{Result, ok, ◌>>=◌, raise_if-eq-ok}
use poker_room_backend.Domain.Models.{Game, Round}
use poker_room_backend.Domain.RoomConfig.{RoomConfig}
use poker_room_backend.Engine.TableRuntime.{
  TableStatus, TableRuntime, pause_session, resume_session,
}
use poker_room_backend.Application.HandCompletion.{
  max_level, apply_hand_completion, write_completion,
}
use poker_room_backend.Application.HandCompletion.Laws.{IsCompletion, apply_hand_completion_lem}
use poker_room_backend.Application.Snapshot.{load_room_snapshot}
use poker_room_backend.Application.TableCommands.{
  pause_table, resume_table, load_runtime, build_runtime_from_game, count_completed_rounds,
  record_hand_completed,
}

-- A game that was paused can be resumed, at any time and with any snapshot, and is then as it was; the
-- table that the first command answers is paused and the one of the second is running.
pub resume_table-pause_table :
    (now now' : ℤ) (game game' : Game) (snapshot snapshot' : RoomConfig) {t : TableRuntime}
    → pause_table now (some game) snapshot ≡ ok (game', t)
    → (t.status ≡ TableStatus.paused)
      × (t' : TableRuntime) × (resume_table now' (some game') snapshot' ≡ ok (game, t'))
      × (t'.status ≡ TableStatus.running)
unfolding pause_table resume_table resume_session pause_session load_runtime build_runtime_from_game
resume_table-pause_table now now' game game' snapshot snapshot' {t} h =
    let (active, h1) = raise_if-eq-ok (not (game_is_active game.status)) _ _ h in
    let paused : game' ≡ record game { status = GameStatus.paused } = cc in
    let same_table : t ≡ pause_session (load_runtime now game snapshot) = cc in
    let runtime : TableRuntime =
      record (load_runtime now' (record game { status = GameStatus.paused }) snapshot') {
        status = TableStatus.running;
      } in
    (
      ap (λ x. x.status) same_table,
      runtime,
      subst (λ g. resume_table now' (some g) snapshot' ≡ ok (game, runtime)) (sym paused)
          (ap (λ s. ok (record game { status = s }, runtime))
            (sym (named game.status (ground arith)))),
      refl,
    )
  where
    named : (s : GameStatus) → game_is_active s ≡ true → s ≡ GameStatus.active
    named GameStatus.waiting e = ground arith
    named GameStatus.active e = refl
    named GameStatus.paused e = ground arith
    named GameStatus.finished e = ground arith

-- A call of `record_hand_completed` at each of the times.
unfoldable pub record_each : List ℤ → List Round → RoomConfig → Game → Result Game
record_each [] rounds snapshot game = ok game
record_each (now ∷ nows) rounds snapshot game = do
  (game', _) ← record_hand_completed now (some game) rounds snapshot
  record_each nows rounds snapshot game'

-- A game with all its completed rounds counted.
pub record IsSynchronized (rounds : List Round) (snapshot : RoomConfig) (game game' : Game)
    : Type 0 where
  pub all_counted : game'.hands_played ≡ count_completed_rounds rounds
  pub same_game : game'.game_id ≡ game.game_id
  pub level_low : game.current_blind_level ≤ℤ game'.current_blind_level
  pub level_high :
      game'.current_blind_level
      ≤ℤ max_ℤ game.current_blind_level (max_level (load_room_snapshot snapshot))

-- One call counts one hand more, if one is missing.
module _ (now : ℤ) (rounds : List Round) (snapshot : RoomConfig) (game : Game) where
  missing : Bool
  missing = ltb_ℤ game.hands_played (count_completed_rounds rounds)

  counted : Game
  counted =
      write_completion (apply_hand_completion now game (load_room_snapshot snapshot) missing) game

  completion :
      IsCompletion game
        (load_room_snapshot snapshot)
        missing
        (apply_hand_completion now game (load_room_snapshot snapshot) missing)
  completion = apply_hand_completion_lem now game (load_room_snapshot snapshot) missing

  counted_bound :
      game.hands_played ≤ℤ count_completed_rounds rounds
      → counted.hands_played ≤ℤ count_completed_rounds rounds
  unfolding counted missing
  counted_bound le =
      subst (λ h. h ≤ℤ count_completed_rounds rounds) (sym completion.hands)
        (one game.hands_played (count_completed_rounds rounds) le)
    where
      one : (a b : ℤ) → a ≤ℤ b → a +ℤ (if ltb_ℤ a b then pos 1 else pos 0) ≤ℤ b
      one a b h = grind int_laws

  counted_closer :
      (n : ℕ)
      → count_completed_rounds rounds ≤ℤ game.hands_played +ℤ pos (suc n)
      → game.hands_played ≤ℤ count_completed_rounds rounds
      → count_completed_rounds rounds ≤ℤ counted.hands_played +ℤ pos n
  unfolding counted missing
  counted_closer n far le =
      subst (λ h. count_completed_rounds rounds ≤ℤ h +ℤ pos n) (sym completion.hands)
        (closer game.hands_played (count_completed_rounds rounds) far le)
    where
      closer :
          (a b : ℤ)
          → b ≤ℤ a +ℤ pos (suc n)
          → a ≤ℤ b
          → b ≤ℤ (a +ℤ (if ltb_ℤ a b then pos 1 else pos 0)) +ℤ pos n
      closer a b far le = grind int_laws

-- Where no more hands are counted than rounds were completed, as many calls as hands are missing, or
-- more, succeed and count every completed round once. They leave the blind level where it was or
-- higher, and not past the last level of the room unless it was there before.
pub record_each-IsSynchronized :
    (nows : List ℤ) (rounds : List Round) (snapshot : RoomConfig) (game : Game)
    → game.hands_played ≤ℤ count_completed_rounds rounds
    → count_completed_rounds rounds ≤ℤ game.hands_played +ℤ pos (length nows)
    → (game' : Game) × (record_each nows rounds snapshot game ≡ ok game')
      × IsSynchronized rounds snapshot game game'
unfolding record_each record_hand_completed counted missing
record_each-IsSynchronized [] rounds snapshot game le far = (
  game,
  refl,
  record {
    all_counted = both game.hands_played (count_completed_rounds rounds) le far;
    same_game = refl;
    level_low = omega arith;
    level_high = at_most game.current_blind_level (max_level (load_room_snapshot snapshot));
  },
)
  where
    both : (a b : ℤ) → a ≤ℤ b → b ≤ℤ a +ℤ pos 0 → a ≡ b
    both a b h k = grind int_laws

    at_most : (a b : ℤ) → a ≤ℤ max_ℤ a b
    at_most a b = ground arith
record_each-IsSynchronized (now ∷ nows) rounds snapshot game le far =
    let (game', e, s) =
      record_each-IsSynchronized nows rounds snapshot (counted now rounds snapshot game)
        (counted_bound now rounds snapshot game le)
        (counted_closer now rounds snapshot game (length nows) far le) in
    let c = completion now rounds snapshot game in
    (
      game',
      e,
      record {
        all_counted = s.all_counted;
        same_game = s.same_game;
        level_low = up game.current_blind_level _ game'.current_blind_level c.level_low s.level_low;
        level_high =
            bounded game.current_blind_level (max_level (load_room_snapshot snapshot)) _
              game'.current_blind_level c.level_high s.level_high;
      },
    )
  where
    up : (a b c : ℤ) → a ≤ℤ b → b ≤ℤ c → a ≤ℤ c
    up a b c h k = omega (arith, h, k)

    bounded : (a m b c : ℤ) → b ≤ℤ max_ℤ a m → c ≤ℤ max_ℤ b m → c ≤ℤ max_ℤ a m
    bounded a m b c h k = ground arith
