-- ===== src/Domain/Rules.antt =====
-- services/game-service/app/domain/rules.py.
use poker_room_backend.Prelude.{ℕ, String, Bool, true, false, Option, none, List, [], ◌∷◌}
use poker_room_backend.Domain.Constants.{Street}

pub record RulesProfile : Type 0 where
  pub name : String
  pub betting_structure : String
  pub forced_bets : String
  pub min_players : ℕ
  pub max_players : ℕ
  pub streets : List Street
  pub min_raise_equals_last_raise : Bool
  pub unlimited_raises : Bool
  pub max_raises_per_street : Option ℕ
  pub all_in_reopens_action : Bool
  pub dead_button_rule : Bool
  pub engine_version : String

abbrev pub no_limit_holdem : RulesProfile
no_limit_holdem = record {
  name = "No-Limit Texas Hold'em";
  betting_structure = "no_limit";
  forced_bets = "blinds";
  min_players = 2;
  max_players = 10;
  streets = Street.pre_flop ∷ Street.flop ∷ Street.turn ∷ Street.river ∷ Street.showdown ∷ [];
  min_raise_equals_last_raise = true;
  unlimited_raises = true;
  max_raises_per_street = none;
  all_in_reopens_action = false;
  dead_button_rule = false;
  engine_version = "0.15.0";
}
