-- ===== src/Application/ResolveHand/Shares.antt =====
-- The rows of the players behind a corrected payout: `CorrectionCommandService.correct_payout`
-- (services/game-service/app/application/commands/correction_command_service.py).
use poker_room_backend.Prelude.{
  ℤ, pos, ◌+ℤ◌, ◌-ℤ◌, ◌≡◌, ◌⊎◌, inl, inr, refl, sym, ap, subst, ◌∙◌, String, Bool, true, false,
  Option, none, some, List, [], ◌∷◌, All, All-find_first, Bool-cases, Option-cases, if◌then◌else◌,
  arith, eq_iff, find_first, map_option, find_first-change_first, find_first-change_first_other,
  int_laws, str_eq,
}
use poker_room_backend.Domain.Models.{RoundPlayer}
use poker_room_backend.Application.Rows.{change_row}
use poker_room_backend.Application.Corrections.{PayoutCorrection, add_chips}

-- The chips that a corrected payout gives to a player, or takes.
abbrev pub share : PayoutCorrection → String → ℤ
share p player_id =
    (if str_eq player_id p.new_player_id then p.new_amount else pos 0)
    -ℤ (if str_eq player_id p.old_player_id then p.old_amount else pos 0)

-- The row of a player with its share.
abbrev pub with_share : PayoutCorrection → RoundPlayer → RoundPlayer
with_share p rp = record rp { stack_remaining = rp.stack_remaining +ℤ share p rp.player_id }

abbrev pub row_of : String → List RoundPlayer → Option RoundPlayer
row_of player_id rps = find_first (λ rp. str_eq rp.player_id player_id) rps

-- The row of a player, after chips were added to the row of another or of the same player.
row_of-add_chips :
    (player_id changed : String) (amount : ℤ) (rps : List RoundPlayer)
    → row_of player_id (change_row changed (add_chips amount) rps)
      ≡ map_option
          (add_chips (if str_eq player_id changed then amount else pos 0))
          (row_of player_id rps)
row_of-add_chips player_id changed amount rps = elim (Bool-cases (str_eq player_id changed)) [
  | inl same ↦ rw same (
      subst
        (λ c.
          row_of player_id (change_row c (add_chips amount) rps)
          ≡ map_option (add_chips amount) (row_of player_id rps))
        ((eq_iff player_id changed).0 same)
        (find_first-change_first (λ rp. str_eq rp.player_id player_id) (add_chips amount) rps
          (λ x. refl)))
  | inr other ↦ rw other (
      find_first-change_first_other (λ rp. str_eq rp.player_id changed)
        (λ rp. str_eq rp.player_id player_id) (add_chips amount) rps
        (λ x hit. (apart other x hit, apart other x hit))
      ∙ sym (add_zero (row_of player_id rps)))
]
  where
    apart :
        str_eq player_id changed ≡ false
        → (x : RoundPlayer) → str_eq x.player_id changed ≡ true
        → str_eq x.player_id player_id ≡ false
    apart other x hit = elim (Bool-cases (str_eq x.player_id player_id)) [
      | inl it ↦ absurd (
          differs (
            rw
              ((eq_iff player_id changed).1
                (sym ((eq_iff x.player_id player_id).0 it) ∙ (eq_iff x.player_id changed).0 hit))
              at other))
      | inr no' ↦ no'
    ]
      where
        differs : true ≡ false → ⊥
        differs e = ground arith

    add_zero : (o : Option RoundPlayer) → map_option (add_chips (pos 0)) o ≡ o
    add_zero none = refl
    add_zero (some rp) =
        ap (λ n. some (record rp { stack_remaining = n })) (plus_zero rp.stack_remaining)
      where
        plus_zero : (a : ℤ) → a +ℤ pos 0 ≡ a
        plus_zero a = omega int_laws

-- What is taken and then given is the share.
pub shared_chips :
    (p : PayoutCorrection) (player_id : String) (rps : List RoundPlayer)
    → row_of player_id (
        change_row p.new_player_id
          (add_chips p.new_amount)
          (change_row p.old_player_id (add_chips (pos 0 -ℤ p.old_amount)) rps))
      ≡ map_option (with_share p) (row_of player_id rps)
shared_chips p player_id rps =
    row_of-add_chips player_id p.new_player_id p.new_amount _
    ∙ ap (map_option (add_chips (if str_eq player_id p.new_player_id then p.new_amount else pos 0)))
        (row_of-add_chips player_id p.old_player_id (pos 0 -ℤ p.old_amount) rps)
    ∙ both (Option-cases (row_of player_id rps))
  where
    both :
        ((row_of player_id rps ≡ none) ⊎ ((rp : RoundPlayer) × (row_of player_id rps ≡ some rp)))
        → map_option
            (add_chips (if str_eq player_id p.new_player_id then p.new_amount else pos 0))
            (map_option
              (add_chips
                (if str_eq player_id p.old_player_id then pos 0 -ℤ p.old_amount else pos 0))
              (row_of player_id rps))
          ≡ map_option (with_share p) (row_of player_id rps)
    both (inl none') = rw none' refl
    both (inr (rp, found)) = rw found (
        ap (λ n. some (record rp { stack_remaining = n }))
          (sums (str_eq player_id p.new_player_id) (str_eq player_id p.old_player_id)
            rp.stack_remaining)
        ∙ ap (λ i. some (record rp { stack_remaining = rp.stack_remaining +ℤ share p i }))
            (sym (found_id found)))
      where
        found_id : row_of player_id rps ≡ some rp → rp.player_id ≡ player_id
        found_id e =
            (eq_iff rp.player_id player_id).0
              (All-find_first (λ q. q ≡ q) (λ q. str_eq q.player_id player_id) rps (anything rps)
                e).1
          where
            anything : (xs : List RoundPlayer) → All {0, 0} (λ q. q ≡ q) xs
            anything [] = tt
            anything (x ∷ xs) = (refl, anything xs)

        sums :
            (new old : Bool) (n : ℤ)
            → (n +ℤ (if old then pos 0 -ℤ p.old_amount else pos 0))
                +ℤ (if new then p.new_amount else pos 0)
              ≡ n
                +ℤ ((if new then p.new_amount else pos 0) -ℤ (if old then p.old_amount else pos 0))
        sums true true n = omega int_laws
        sums true false n = omega int_laws
        sums false true n = omega int_laws
        sums false false n = omega int_laws
