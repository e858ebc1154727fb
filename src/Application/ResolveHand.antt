-- ===== src/Application/ResolveHand.antt =====
-- `GameCommandService.resolve_hand` and `declare_winner`
-- (services/game-service/app/application/commands/game_command_service.py).
pub mod Paying
pub mod Accepted
pub mod Laws
pub mod Shares
pub mod Corrected
use poker_room_backend.Prelude.{
  ℕ, ℤ, pos, ◌+ℤ◌, String, Bool, true, false, not, ◌||◌, Option, none, some, List, [], ◌∷◌, ◌++◌,
  ltb_ℤ, eqb_ℤ, leb, if◌then◌else◌, length, sum_by,
}
use poker_room_backend.Domain.Constants.{
  GameStatus, RoundStatus, Street, GameEventType, LedgerEntryType, round_is_active,
}
use poker_room_backend.Domain.Exceptions.{DomainError, Result, ok, err, ◌>>=◌, ◌>>◌, raise_if}
use poker_room_backend.Domain.Models.{Game, Round, RoundPlayer, RoundPayout, HandLedgerEntry}
use poker_room_backend.Domain.RoomConfig.{RoomConfig}
use poker_room_backend.Engine.ActionPipeline.{version_or_one}
use poker_room_backend.Engine.SidePots.{is_empty}
use poker_room_backend.Engine.PayoutValidation.{
  WinnerShare, PotPayout, winners_total, validate_payouts_against_side_pots,
}
use poker_room_backend.Engine.Positions.{rotate_positions}
use poker_room_backend.Application.Rows.{
  HandRows, OutboxEvent, append_ledger_entry, add_event, no_detail, change_row,
}
use poker_room_backend.Application.Corrections.{add_chips}
use poker_room_backend.Application.HandCompletion.{apply_hand_completion, write_completion}
use poker_room_backend.Application.Snapshot.{
  load_room_snapshot, sync_room_snapshot_players_from_round,
}

-- The rows of a game: its own, the snapshot of its room, and those of the hand in play.
pub record GameRows : Type 0 where
  pub game : Game
  pub snapshot : RoomConfig
  pub hand : HandRows
  pub payouts : List RoundPayout

-- What the command draws: an identifier for each ledger entry, and the time.
pub record ResolveIds : Type 0 where
  pub payout_entry_id : ℕ → String → String
  pub completed_entry_id : String
  pub now : ℤ

-- `sum(w.amount for pot in data.payouts for w in pot.winners)`
abbrev pub total_paid : List PotPayout → ℤ
total_paid = sum_by winners_total

unfoldable pub check_amounts : List PotPayout → Result (Unit {0})
check_amounts [] = ok tt
check_amounts (s ∷ ss) =
    raise_if (not (eqb_ℤ (winners_total s) s.amount)) DomainError.payout_mismatch
    >> check_amounts ss

-- `has_round_completed_entry`
abbrev pub is_completion : LedgerEntryType → Bool
is_completion LedgerEntryType.round_completed = true
is_completion _ = false

unfoldable pub has_round_completed_entry : List HandLedgerEntry → Bool
has_round_completed_entry [] = false
has_round_completed_entry (e ∷ es) = is_completion e.entry_type || has_round_completed_entry es

abbrev pub payout_row : String → PotPayout → WinnerShare → RoundPayout
payout_row round_id pot winner = record {
  round_id = round_id;
  pot_index = pot.pot_index;
  pot_type = pot.pot_type;
  player_id = winner.player_id;
  amount = winner.amount;
}

abbrev pub payout_entry : ResolveIds → String → PotPayout → WinnerShare → HandLedgerEntry
payout_entry ids round_id pot winner = record {
  entry_id = ids.payout_entry_id pot.pot_index winner.player_id;
  round_id = round_id;
  entry_type = LedgerEntryType.payout_awarded;
  player_id = some winner.player_id;
  amount = some winner.amount;
  detail = some no_detail;
  original_entry_id = none;
  dealer_id = none;
}

-- The body of the inner loop: the row, the stack and the ledger entry of one winner.
abbrev pub pay_winner : ResolveIds → PotPayout → WinnerShare → HandRows → HandRows
pay_winner ids pot winner rows =
    append_ledger_entry (payout_entry ids rows.round.round_id pot winner)
      (record rows { players = change_row winner.player_id (add_chips winner.amount) rows.players })

unfoldable pub pay_winners :
    ResolveIds
    → PotPayout
    → List WinnerShare
    → HandRows × List RoundPayout
    → HandRows × List RoundPayout
pay_winners ids pot [] t = t
pay_winners ids pot (w ∷ ws) (rows, paid) =
    pay_winners ids pot ws
      (pay_winner ids pot w rows, paid ++ payout_row rows.round.round_id pot w ∷ [])

unfoldable pub pay_pots :
    ResolveIds → List PotPayout → HandRows × List RoundPayout → HandRows × List RoundPayout
pay_pots ids [] t = t
pay_pots ids (s ∷ ss) t = pay_pots ids ss (pay_winners ids s s.winners t)

-- The writes to the round, and the entry that closes the ledger.
abbrev pub close_round : ℤ → Round → Round
close_round now r = record r {
  status = RoundStatus.completed;
  street = Street.showdown;
  acting_player_id = none;
  is_action_closed = true;
  completed_at = some now;
  state_version = version_or_one r.state_version +ℤ pos 1;
}

abbrev pub completed_entry : ResolveIds → Round → HandLedgerEntry
completed_entry ids r = record {
  entry_id = ids.completed_entry_id;
  round_id = r.round_id;
  entry_type = LedgerEntryType.round_completed;
  player_id = none;
  amount = some r.pot_amount;
  detail = none;
  original_entry_id = none;
  dealer_id = none;
}

abbrev pub complete_round : ResolveIds → HandRows → HandRows
complete_round ids rows =
    append_ledger_entry (completed_entry ids rows.round)
      (record rows { round = close_round ids.now rows.round })

-- The seats of the next hand, or the end of the game. `rotate_positions` finds no seat only among
-- none.
unfoldable pub next_seats : List ℤ → Game → Game
next_seats active_seats game =
    if leb 2 (length active_seats)
    then elim (rotate_positions active_seats game.current_dealer_seat) [
      | none ↦ game
      | some (dealer, small, big) ↦ record game {
        current_dealer_seat = dealer;
        current_small_blind_seat = small;
        current_big_blind_seat = big;
      }
    ]
    else record game { status = GameStatus.finished }

abbrev pub is_finished : GameStatus → Bool
is_finished GameStatus.finished = true
is_finished _ = false

abbrev pub finish_events : Game → HandRows → HandRows
finish_events game rows =
    let rows' = add_event GameEventType.round_completed rows in
    if is_finished game.status
    then record rows' {
      events =
          rows'.events
          ++ record { event_type = GameEventType.finished; subject = game.game_id } ∷ [];
    }
    else rows'

-- The hand is counted unless its ledger shows that it was completed before.
abbrev pub count_hand : ℤ → RoomConfig → Bool → Game → Game
count_hand now config already_counted game =
    if already_counted
    then game
    else write_completion (apply_hand_completion now game config true) game

-- Everything that is written once the payouts are accepted.
unfoldable pub settle : ResolveIds → List PotPayout → GameRows → GameRows
settle ids ss t =
    let already_counted = has_round_completed_entry t.hand.ledger in
    let (hand, paid) = pay_pots ids ss (t.hand, t.payouts) in
    let hand' = complete_round ids hand in
    let (snapshot', active_seats) =
      sync_room_snapshot_players_from_round hand'.players t.snapshot in
    let game' =
      next_seats active_seats
        (count_hand ids.now (load_room_snapshot t.snapshot) already_counted t.game) in
    record { game = game'; snapshot = snapshot'; hand = finish_events game' hand'; payouts = paid }

unfoldable pub resolve_hand : ResolveIds → List PotPayout → GameRows → Result GameRows
resolve_hand ids ss t = do
  raise_if (not (round_is_active t.hand.round.status)) DomainError.round_not_active
  raise_if (is_empty ss) DomainError.payout_empty
  raise_if (ltb_ℤ t.hand.round.pot_amount (total_paid ss)) DomainError.payout_exceeds_pot
  check_amounts ss
  pots ← validate_payouts_against_side_pots t.hand.players ss t.hand.round.pot_amount
  ok (settle ids ss t)

-- `declare_winner`: the whole pot as one payout.
abbrev pub whole_pot_to : String → Round → List PotPayout
whole_pot_to player_id r =
    record {
      pot_index = 0;
      pot_type = "main";
      amount = r.pot_amount;
      winners = record { player_id = player_id; amount = r.pot_amount } ∷ [];
    }
    ∷ []

-- `none` is the refusal of an amount below 1 by the schema of the request.
unfoldable pub declare_winner : ResolveIds → String → GameRows → Result (Option GameRows)
declare_winner ids winner_player_id t =
    if ltb_ℤ (pos 0) t.hand.round.pot_amount
    then (do t' ← resolve_hand ids (whole_pot_to winner_player_id t.hand.round) t; ok (some t'))
    else ok none
