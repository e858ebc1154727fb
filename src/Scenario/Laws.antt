-- ===== src/Scenario/Laws.antt =====
-- A scenario runs the engine: its hand is sound, and its chips are those of its players.
use mathlib.Core.List.{append-nil, append_assoc}
use poker_room_backend.Prelude.{
  ◌+◌, ℤ, pos, ◌<ℤ◌, ◌<◌, map, ◌≡◌, ◌↔◌, refl, sym, ap, ◌∙◌, String, Bool, true, false, some, List,
  [], ◌∷◌, ◌++◌, arith, length, All, if◌then◌else◌,
}
use poker_room_backend.Domain.Exceptions.{DomainError}
use poker_room_backend.Domain.Models.{Round}
use poker_room_backend.Scenario.{
  Expectation, HandScenario, ScenarioResult, Running, opening, run_actions, holds, evaluate,
  evaluate_all, finish_scenario, run_scenario,
}
use poker_room_backend.Scenario.Opening.{
  IsFairScenario, IsOnTable, IsOpened, opening-IsOnTable, opening-IsOpened, opening-applied,
}
use poker_room_backend.Scenario.Script.{IsPlayed, run_actions-IsPlayed, IsPlayed-IsOnTable}
use poker_room_backend.Scenario.Expectations.{IsMet, all_hold_iff}
use poker_room_backend.Scenario.Seats.{IsClockwise, scenario_seats-some, scenario_seats-IsClockwise}

-- The loop over the expectations: the flag falls at the first one that fails.
evaluate_all-passed :
    (type_name : DomainError → String) (h : Running) (es : List Expectation)
    (result : ScenarioResult)
    → ((evaluate_all type_name h es result).passed ≡ true)
      ↔ ((result.passed ≡ true) × All (λ e. holds type_name h e ≡ true) es)
unfolding evaluate_all
evaluate_all-passed type_name h [] result = ((λ p. (p, tt)), (λ p. p.0))
evaluate_all-passed type_name h (e ∷ es) result =
    let (f, g) = evaluate_all-passed type_name h es (record result {
      expectation_results = result.expectation_results ++ evaluate type_name h e ∷ [];
      passed = if holds type_name h e then result.passed else false;
    }) in
    (
      (λ p.
          (let (q, r) = f p in
            let (x, b) = both_if (holds type_name h e) result.passed q in (x, (b, r)))),
      (λ p. g (if_both (holds type_name h e) result.passed p.1.0 p.0, p.1.1)),
    )
  where
    both_if : (b x : Bool) → (if b then x else false) ≡ true → (x ≡ true) × (b ≡ true)
    both_if b x e = ground arith

    if_both : (b x : Bool) → b ≡ true → x ≡ true → (if b then x else false) ≡ true
    if_both b x e f = ground arith

evaluate_all-applied :
    (type_name : DomainError → String) (h : Running) (es : List Expectation)
    (result : ScenarioResult)
    → (evaluate_all type_name h es result).actions_applied ≡ result.actions_applied
unfolding evaluate_all
evaluate_all-applied type_name h [] result = refl
evaluate_all-applied type_name h (e ∷ es) result = evaluate_all-applied type_name h es _

evaluate_all-results :
    (type_name : DomainError → String) (h : Running) (es : List Expectation)
    (result : ScenarioResult)
    → (evaluate_all type_name h es result).expectation_results
      ≡ result.expectation_results ++ map (evaluate type_name h) es
unfolding evaluate_all
evaluate_all-results type_name h [] result = sym (append-nil result.expectation_results)
evaluate_all-results type_name h (e ∷ es) result =
    evaluate_all-results type_name h es _
    ∙ append_assoc result.expectation_results (evaluate type_name h e ∷ [])
        (map (evaluate type_name h) es)

-- What a scenario comes to: the hand that its blinds open and its script plays, of which the result tells.
pub record IsScenarioEnd (upper : String → String) (type_name : DomainError → String)
    (blank : Round) (s : HandScenario) (result : ScenarioResult) : Type 0 where
  pub small : ℤ
  pub big : ℤ
  pub first : ℤ
  pub start : Running
  pub last : Running
  pub clockwise : IsClockwise s small big first
  pub opened : IsOpened blank s small big first start
  pub played : IsPlayed upper s.actions start last
  pub on_table : IsOnTable s last
  pub all_applied : result.actions_applied ≡ length s.actions
  pub all_judged : result.expectation_results ≡ map (evaluate type_name last) s.expectations
  pub passed_iff : (result.passed ≡ true) ↔ All (IsMet type_name last) s.expectations

-- A scenario with a player, blinds of 0 or more and different players with chips, on a new round with a
-- positive state version, runs, and ends in the hand that its script plays: it opens with the postings of the engine, the small blind behind the
-- dealer's seat if a player has that, the big blind behind the small blind; each action in its order
-- makes of the hand what the engine makes of it, or leaves the hand alone and is its last error. That hand
-- is in a sound state with exactly the chips that the players brought; the result counts every action,
-- judges every expectation on the hand, and is passed exactly when all of them are met.
pub run_scenario_lem :
    (upper : String → String) (type_name : DomainError → String) (blank : Round) (s : HandScenario)
    → 0 < length s.players
    → IsFairScenario s
    → pos 0 <ℤ blank.state_version
    → (result : ScenarioResult) × (run_scenario upper type_name blank s ≡ some result)
      × IsScenarioEnd upper type_name blank s result
unfolding run_scenario
run_scenario_lem upper type_name blank s some_player fair version =
    let (seats, e) = scenario_seats-some s some_player in
    let start = opening blank s seats in
    let h = run_actions upper s.actions start in
    let played = run_actions-IsPlayed upper s.actions start in
    let (table, applied) =
      IsPlayed-IsOnTable s played (opening-IsOnTable blank s seats fair version) in
    (
      finish_scenario type_name s h,
      rw (run_scenario, e) refl,
      record {
        small = seats.0;
        big = seats.1;
        first = seats.2;
        start = start;
        last = h;
        clockwise = scenario_seats-IsClockwise s seats e;
        opened = opening-IsOpened blank s seats fair version;
        played = played;
        on_table = table;
        all_applied =
            evaluate_all-applied type_name h s.expectations _
            ∙ applied
            ∙ ap (λ n. length s.actions + n) (opening-applied blank s seats fair version)
            ∙ omega arith;
        all_judged = evaluate_all-results type_name h s.expectations _;
        passed_iff =
            starts (evaluate_all-passed type_name h s.expectations _)
              (all_hold_iff type_name h s.expectations);
      },
    )
  where
    starts : {A B C : Type 0} → A ↔ ((true ≡ true) × B) → B ↔ C → A ↔ C
    starts (f, g) (to, back) = (λ a. to (f a).1, λ c. g (refl, back c))
