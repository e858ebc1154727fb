-- ===== src/Engine/SidePots.antt =====
-- services/game-service/app/domain/engine/side_pots.py: the pots of a hand with all-ins.
pub mod Levels
pub mod Merging
pub mod Laws
use poker_room_backend.Prelude.{
  ℕ, suc, ℤ, pos, ◌+ℤ◌, ◌-ℤ◌, ◌*ℤ◌, String, Bool, true, false, not, ◌&&◌, ◌||◌, List, [], ◌∷◌, ◌++◌,
  map, str_eq, ltb_ℤ, leb_ℤ, if◌then◌else◌, length, select,
}
use poker_room_backend.Prelude.Sorting.{sorted}

pub record PlayerContribution : Type 0 where
  pub player_id : String
  pub committed_this_hand : ℤ
  pub has_folded : Bool
  pub reached_showdown : Bool

pub record Pot : Type 0 where
  pub pot_index : ℕ
  pub amount : ℤ
  pub contributor_player_ids : List String
  pub eligible_winner_player_ids : List String

pub record RawPot : Type 0 where
  pub amount : ℤ
  pub contributors : List String
  pub eligible : List String

unfoldable pub has_id : String → List String → Bool
has_id x [] = false
has_id x (y ∷ ys) = str_eq y x || has_id x ys

-- `_unique_ordered`; the set `seen` holds the members of `out`
unique_from : List String → List String → List String
unique_from out [] = out
unique_from out (x ∷ xs) = unique_from (if has_id x out then out else out ++ x ∷ []) xs

unfoldable pub unique_ordered : List String → List String
unfolding unique_from
unique_ordered items = unique_from [] items

abbrev pub above : ℤ → PlayerContribution → Bool
above level p = ltb_ℤ level p.committed_this_hand

abbrev pub may_win : PlayerContribution → Bool
may_win p = not p.has_folded && p.reached_showdown

-- The pot between two levels.
unfoldable pub level_pot : List PlayerContribution → ℤ → ℤ → RawPot
level_pot players previous_level current_level =
    let contributors = select (above previous_level) players in
    record {
      amount = (current_level -ℤ previous_level) *ℤ pos (length contributors);
      contributors = map (λ p. p.player_id) contributors;
      eligible = map (λ p. p.player_id) (select may_win contributors);
    }

-- The loop over the sorted players, `todo` being those that are left.
unfoldable pub raw_pots : List PlayerContribution → ℤ → List PlayerContribution → List RawPot
raw_pots players previous_level [] = []
raw_pots players previous_level (p ∷ todo) =
    let skipped = raw_pots players previous_level todo in
    let taken =
      level_pot players previous_level p.committed_this_hand
      ∷ raw_pots players p.committed_this_hand todo in
    if leb_ℤ p.committed_this_hand previous_level then skipped else taken

-- The variables of the loop in `_merge_dead_pots`.
pub record Merge : Type 0 where
  pub result : List RawPot
  pub carry_amount : ℤ
  pub carry_contributors : List String

abbrev pub is_empty {ℓ} : {A : Type ℓ} → List A → Bool
is_empty [] = true
is_empty (x ∷ xs) = false

unfoldable pub merge_step : Merge → RawPot → Merge
merge_step m pot =
    let combined_amount = pot.amount +ℤ m.carry_amount in
    let combined_contributors = unique_ordered (m.carry_contributors ++ pot.contributors) in
    if is_empty pot.eligible
    then record {
      result = m.result;
      carry_amount = combined_amount;
      carry_contributors = combined_contributors;
    }
    else record {
      result =
          m.result
          ++ record {
            amount = combined_amount;
            contributors = combined_contributors;
            eligible = pot.eligible;
          }
            ∷ [];
      carry_amount = pos 0;
      carry_contributors = [];
    }

unfoldable pub merge_loop : Merge → List RawPot → Merge
merge_loop m [] = m
merge_loop m (pot ∷ pots) = merge_loop (merge_step m pot) pots

-- `result[-1]` takes the carry; an empty `result` becomes one pot of it.
unfoldable pub add_carry : ℤ → List String → List RawPot → List RawPot
add_carry carry contributors [] =
    record { amount = carry; contributors = contributors; eligible = [] } ∷ []
add_carry carry contributors (last ∷ []) =
    record last {
      amount = last.amount +ℤ carry;
      contributors = unique_ordered (last.contributors ++ contributors);
    }
    ∷ []
add_carry carry contributors (pot ∷ next ∷ pots) = pot ∷ add_carry carry contributors (next ∷ pots)

unfoldable pub merge_dead_pots : List RawPot → List RawPot
merge_dead_pots pots =
    let m =
      merge_loop (record { result = []; carry_amount = pos 0; carry_contributors = [] }) pots in
    if ltb_ℤ (pos 0) m.carry_amount
    then add_carry m.carry_amount m.carry_contributors m.result
    else m.result

unfoldable pub number_pots : ℕ → List RawPot → List Pot
number_pots idx [] = []
number_pots idx (p ∷ ps) =
    record {
      pot_index = idx;
      amount = p.amount;
      contributor_player_ids = p.contributors;
      eligible_winner_player_ids = p.eligible;
    }
    ∷ number_pots (suc idx) ps

unfoldable pub calculate_side_pots : List PlayerContribution → List Pot
calculate_side_pots players =
    let sorted_players = sorted (λ p. p.committed_this_hand) players in
    number_pots 0 (merge_dead_pots (raw_pots sorted_players (pos 0) sorted_players))
