-- ===== src/Engine/BlindPosting.antt =====
-- services/game-service/app/domain/engine/blind_posting.py: antes and blinds at the start of a hand.
pub mod Laws
use poker_room_backend.Prelude.{
  ℤ, pos, ◌+ℤ◌, ◌-ℤ◌, String, Bool, ◌&&◌, List, [], ◌∷◌, map, ltb_ℤ, eqb_ℤ, min_ℤ, max_ℤ,
  if◌then◌else◌, sum_by,
}

pub record SeatPlayer : Type 0 where
  pub player_id : String
  pub seat_number : ℤ
  pub stack : ℤ

pub record PostedPlayer : Type 0 where
  pub player_id : String
  pub seat_number : ℤ
  pub stack_remaining : ℤ
  pub committed_this_street : ℤ
  pub committed_this_hand : ℤ
  pub is_all_in : Bool

pub record BlindPostingResult : Type 0 where
  pub players : List PostedPlayer
  pub pot_total : ℤ
  pub current_highest_bet : ℤ

-- What a player is asked to put in: the seats and the amounts of the hand.
pub record Blinds : Type 0 where
  pub small_blind_seat : ℤ
  pub big_blind_seat : ℤ
  pub small_blind_amount : ℤ
  pub big_blind_amount : ℤ
  pub ante_amount : ℤ

-- The ante, at most the stack.
unfoldable pub ante_of : Blinds → ℤ → ℤ
ante_of b stack = if ltb_ℤ (pos 0) b.ante_amount then min_ℤ b.ante_amount stack else pos 0

-- The blind of a seat, at most what the ante has left.
unfoldable pub blind_of : Blinds → ℤ → ℤ → ℤ
blind_of b seat remaining =
    if eqb_ℤ seat b.small_blind_seat
    then min_ℤ b.small_blind_amount remaining
    else if eqb_ℤ seat b.big_blind_seat
    then min_ℤ b.big_blind_amount remaining
    else pos 0

-- The body of the loop.
unfoldable pub post_player : Blinds → SeatPlayer → PostedPlayer
post_player b p =
    let ante = ante_of b p.stack in
    let after_ante = p.stack -ℤ ante in
    let blind = blind_of b p.seat_number after_ante in
    let committed = ante +ℤ blind in
    let remaining = after_ante -ℤ blind in
    record {
      player_id = p.player_id;
      seat_number = p.seat_number;
      stack_remaining = remaining;
      committed_this_street = committed;
      committed_this_hand = committed;
      is_all_in = eqb_ℤ remaining (pos 0) && ltb_ℤ (pos 0) committed;
    }

-- `max((p.committed_this_street for p in posted), default=0)`
abbrev max_committed : List PostedPlayer → ℤ
max_committed [] = pos 0
max_committed (p ∷ []) = p.committed_this_street
max_committed (p ∷ q ∷ ps) = max_ℤ p.committed_this_street (max_committed (q ∷ ps))

unfoldable pub post_blinds_and_antes : List SeatPlayer → Blinds → BlindPostingResult
post_blinds_and_antes players b =
    let posted = map (post_player b) players in
    record {
      players = posted;
      pot_total = sum_by (λ p. p.committed_this_street) posted;
      current_highest_bet = max_committed posted;
    }
