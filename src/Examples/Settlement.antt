-- ===== src/Examples/Settlement.antt =====
-- Pots, payouts, streets, seats and the ledger of small hands
-- (services/game-service/app/domain/engine, services/game-service/app/domain/ledger).
use poker_room_backend.Prelude.{
  ℤ, pos, ◌+ℤ◌, ◌-ℤ◌, ◌*ℤ◌, ◌≡◌, ◌↔◌, ◌⊎◌, refl, String, Bool, true, false, Option, some, none,
  List, [], ◌∷◌, ◌++◌, map, sum_by, All, here, arith, is_some,
}
use poker_room_backend.Prelude.Sorting.{sorted, insert_by}
use poker_room_backend.Domain.Constants.{Street, LedgerEntryType}
use poker_room_backend.Domain.Exceptions.{ok}
use poker_room_backend.Domain.Models.{RoundPlayer}
use poker_room_backend.Engine.SidePots.{
  PlayerContribution, has_id, unique_ordered, level_pot, raw_pots, merge_step, merge_loop,
  add_carry, merge_dead_pots, number_pots, calculate_side_pots, is_empty,
}
use poker_room_backend.Engine.SidePots.Levels.{IsWinner}
use poker_room_backend.Engine.SidePots.Laws.{
  pots_total, calculate_side_pots_total, calculate_side_pots-IsWinner, calculate_side_pots_live,
}
use poker_room_backend.Engine.PayoutValidation.{
  PotPayout, contribution, winners_total, check_winners, check_payout, check_payouts, pot_at,
  validate_payouts_against_side_pots,
}
use poker_room_backend.Engine.PayoutValidation.Laws.{
  IsPayable, validate_payouts_iff, validate_payouts_twice,
}
use poker_room_backend.Engine.StreetProgression.{PlayerSeat, evaluate_street_end}
use poker_room_backend.Engine.StreetProgression.Laws.{IsStreetEnd, evaluate_street_end_lem}
use poker_room_backend.Ledger.HandLedger.{LedgerRow, empty_state, get, rebuild_hand_state}
use poker_room_backend.Ledger.HandLedger.Laws.{committed_sum, rebuild_pot-eq-committed}
use poker_room_backend.Ledger.HandReplay.{replay_hand, verify_consistency}
use poker_room_backend.Ledger.HandReplay.Laws.{
  steps_from, Matches, replay_hand_lem, verify_consistency_iff,
}
use poker_room_backend.Reporting.SettlementExplainer.{explain_settlement}
use poker_room_backend.Reporting.SettlementExplainer.Laws.{IsBalanced, explain_settlement_lem}
use poker_room_backend.Ledger.HandHistory.{build_hand_timeline}
use poker_room_backend.Ledger.HandHistory.Laws.{last_pot, build_hand_timeline-eq-rebuild}

abbrev put_in : String → ℤ → Bool → PlayerContribution
put_in player_id committed folded = record {
  player_id = player_id;
  committed_this_hand = committed;
  has_folded = folded;
  reached_showdown = true;
}

-- A short stack, two equal ones, and a player who folded.
abbrev four_players : List PlayerContribution
four_players =
    put_in "ann" (pos 10) false
    ∷ put_in "bob" (pos 30) false
    ∷ put_in "cat" (pos 30) false
    ∷ put_in "dan" (pos 20) true
    ∷ []

calculate_side_pots_total_example :
    pots_total (calculate_side_pots four_players) ≡ sum_by (λ p. p.committed_this_hand) four_players
calculate_side_pots_total_example =
    calculate_side_pots_total four_players
      (omega arith, (omega arith, (omega arith, (omega arith, tt))))

calculate_side_pots-IsWinner_example :
    All
      (λ p. All (IsWinner four_players) p.eligible_winner_player_ids)
      (calculate_side_pots four_players)
calculate_side_pots-IsWinner_example = calculate_side_pots-IsWinner four_players

calculate_side_pots_live_example :
    All (λ p. is_empty p.eligible_winner_player_ids ≡ false) (calculate_side_pots four_players)
calculate_side_pots_live_example =
    calculate_side_pots_live four_players (put_in "ann" (pos 10) false) (here _) refl (omega arith)

explain_settlement_lem_example : IsBalanced four_players (explain_settlement four_players [])
explain_settlement_lem_example =
    explain_settlement_lem four_players []
      (omega arith, (omega arith, (omega arith, (omega arith, tt))))

abbrev seated : String → ℤ → ℤ → RoundPlayer
seated player_id seat_number committed = record {
  player_id = player_id;
  seat_number = seat_number;
  stack_remaining = pos 5;
  committed_this_street = pos 0;
  committed_this_hand = committed;
  has_folded = false;
  is_all_in = false;
  is_active_in_hand = true;
}

abbrev two_players : List RoundPlayer
two_players = seated "ann" (pos 1) (pos 10) ∷ seated "bob" (pos 2) (pos 10) ∷ []

abbrev whole_pot : List PotPayout
whole_pot =
    record {
      pot_index = 0;
      pot_type = "main";
      amount = pos 20;
      winners = record { player_id = "bob"; amount = pos 20 } ∷ [];
    }
    ∷ []

payout_accepted :
    validate_payouts_against_side_pots two_players whole_pot (pos 20)
    ≡ ok (calculate_side_pots (map contribution two_players))
unfolding validate_payouts_against_side_pots check_payouts check_payout check_winners pot_at
    calculate_side_pots number_pots merge_dead_pots add_carry merge_loop merge_step raw_pots
    level_pot unique_ordered has_id sorted insert_by ◌+ℤ◌ ◌-ℤ◌ ◌*ℤ◌
payout_accepted = refl

validate_payouts_iff_example :
    (validate_payouts_against_side_pots two_players whole_pot (pos 20)
      ≡ ok (calculate_side_pots (map contribution two_players)))
    ↔ ((calculate_side_pots (map contribution two_players)
          ≡ calculate_side_pots (map contribution two_players))
        × ((is_empty (calculate_side_pots (map contribution two_players)) ≡ true)
            ⊎ All (IsPayable (calculate_side_pots (map contribution two_players))) whole_pot))
validate_payouts_iff_example =
    validate_payouts_iff two_players whole_pot (pos 20)
      (calculate_side_pots (map contribution two_players))

validate_payouts_twice_example :
    (validate_payouts_against_side_pots two_players (whole_pot ++ whole_pot) (pos 20)
      ≡ ok (calculate_side_pots (map contribution two_players)))
    × (sum_by winners_total (whole_pot ++ whole_pot)
        ≡ sum_by winners_total whole_pot +ℤ sum_by winners_total whole_pot)
validate_payouts_twice_example =
    validate_payouts_twice two_players whole_pot (pos 20) payout_accepted

abbrev stays : String → ℤ → PlayerSeat
stays player_id seat_number = record {
  player_id = player_id;
  seat_number = seat_number;
  has_folded = false;
  is_all_in = false;
  is_active_in_hand = true;
}

abbrev two_stay : List PlayerSeat
two_stay = stays "ann" (pos 1) ∷ stays "bob" (pos 2) ∷ []

evaluate_street_end_lem_example :
    let res = evaluate_street_end Street.flop (pos 1) (pos 2) two_stay in
    IsStreetEnd Street.flop (pos 1) two_stay res res.action
evaluate_street_end_lem_example = evaluate_street_end_lem Street.flop (pos 1) (pos 2) two_stay

abbrev row : String → LedgerEntryType → Option String → ℤ → Option String → LedgerRow
row entry_id entry_type player_id amount original = record {
  entry_id = entry_id;
  entry_type = entry_type;
  player_id = player_id;
  amount = some amount;
  detail = none;
  original_entry_id = original;
}

-- Two blinds, a bet that is taken back, and a payout.
abbrev five_entries : List LedgerRow
five_entries =
    row "e1" LedgerEntryType.blind_posted (some "ann") (pos 1) none
    ∷ row "e2" LedgerEntryType.blind_posted (some "bob") (pos 2) none
    ∷ row "e3" LedgerEntryType.bet_placed (some "ann") (pos 5) none
    ∷ row "e4" LedgerEntryType.action_reversed (some "ann") (pos 5) (some "e3")
    ∷ row "e5" LedgerEntryType.payout_awarded (some "bob") (pos 3) none
    ∷ []

rebuild_pot-eq-committed_example :
    (rebuild_hand_state five_entries).pot_total
    ≡ committed_sum (rebuild_hand_state five_entries).players
rebuild_pot-eq-committed_example =
    rebuild_pot-eq-committed five_entries
      ((λ h. refl), ((λ h. refl), ((λ h. refl), ((λ h. refl), ((λ h. refl), tt)))))

replay_hand_lem_example :
    ((replay_hand five_entries).final_state ≡ rebuild_hand_state five_entries)
    × ((replay_hand five_entries).steps ≡ steps_from 1 empty_state five_entries)
replay_hand_lem_example = replay_hand_lem five_entries

abbrev live_players : List (String × ℤ)
live_players = ("ann", pos 1) ∷ ("bob", pos 2) ∷ []

verify_consistency_iff_example : (verify_consistency five_entries (pos 3) live_players ≡ []) ↔ (
    ((rebuild_hand_state five_entries).pot_total ≡ pos 3)
    × All (Matches (rebuild_hand_state five_entries).players) live_players
    × All (λ kv. is_some (get kv.0 live_players) ≡ true) (rebuild_hand_state five_entries).players)
verify_consistency_iff_example = verify_consistency_iff five_entries (pos 3) live_players

build_hand_timeline-eq-rebuild_example :
    (last_pot (build_hand_timeline "round" five_entries).streets
      ≡ (rebuild_hand_state five_entries).pot_total)
    × ((build_hand_timeline "round" five_entries).is_completed
        ≡ (rebuild_hand_state five_entries).is_completed)
    × ((build_hand_timeline "round" five_entries).is_reopened
        ≡ (rebuild_hand_state five_entries).is_reopened)
build_hand_timeline-eq-rebuild_example = build_hand_timeline-eq-rebuild "round" five_entries
