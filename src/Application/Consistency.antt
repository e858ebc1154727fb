-- ===== src/Application/Consistency.antt =====
-- What the rows of a hand keep between commands: the sound state of the engine, and a ledger that
-- accounts for the pot.
use poker_room_backend.Prelude.{
  ℤ, pos, ◌+ℤ◌, ◌≡◌, ap, ◌∙◌, String, Option, List, [], ◌∷◌, ◌++◌, map, int_laws, sum_by,
  sum_by-append, sum_by-map,
}
use poker_room_backend.Domain.Constants.{BetAction}
use poker_room_backend.Domain.Models.{HandLedgerEntry}
use poker_room_backend.Engine.ActionPipeline.Conservation.{chips}
use poker_room_backend.Engine.ActionPipeline.Invariant.{IsSound}
use poker_room_backend.Ledger.HandLedger.Laws.{pot_effect, rebuild_pot}
use poker_room_backend.Application.Rows.{
  HandRows, BetIds, ledger_row, get_hand_state, record_bet_action,
}

-- What the ledger entries add up to.
abbrev pub ledger_pot : List HandLedgerEntry → ℤ
ledger_pot = sum_by (λ e. pot_effect (ledger_row e))

pub get_hand_state_pot :
    (rows : HandRows) → (get_hand_state rows).pot_total ≡ ledger_pot rows.ledger
unfolding get_hand_state
get_hand_state_pot rows =
    rebuild_pot (map ledger_row rows.ledger) ∙ sum_by-map ledger_row pot_effect rows.ledger

pub record IsConsistent (rows : HandRows) : Type 0 where
  pub sound : IsSound rows.round rows.players
  -- the pot that the ledger gives is the stored one
  pub ledger_agrees : (get_hand_state rows).pot_total ≡ rows.round.pot_amount

abbrev pub chips_of : HandRows → ℤ
chips_of rows = chips rows.round rows.players

pub ledger_pot-append :
    (es : List HandLedgerEntry) (e : HandLedgerEntry)
    → ledger_pot (es ++ e ∷ []) ≡ ledger_pot es +ℤ pot_effect (ledger_row e)
ledger_pot-append es e =
    sum_by-append (λ x. pot_effect (ledger_row x)) es (e ∷ [])
    ∙ ap (λ x. ledger_pot es +ℤ x) (plus_zero (pot_effect (ledger_row e)))
  where
    plus_zero : (a : ℤ) → a +ℤ pos 0 ≡ a
    plus_zero a = omega int_laws

-- A bet that is recorded adds its amount to the ledger's pot.
pub ledger_pot-record_bet_action :
    (ids : BetIds) (player_id : String) (action : BetAction) (amount : ℤ) (key : Option String)
    (rows : HandRows)
    → ledger_pot (record_bet_action ids player_id action amount key rows).ledger
      ≡ ledger_pot rows.ledger +ℤ amount
unfolding record_bet_action
ledger_pot-record_bet_action ids player_id action amount key rows = ledger_pot-append rows.ledger _
