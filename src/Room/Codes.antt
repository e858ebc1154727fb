-- ===== src/Room/Codes.antt =====
-- The codes of new rooms: `generate_unique_code`
-- (services/room-service/app/infrastructure/repositories/room_repository.py) under `create_room`.
use poker_room_backend.Prelude.{
  ℕ, zero, suc, ◌<◌, ◌≡◌, ◌≢◌, ◌⊎◌, refl, subst, sym, String, true, false, Option, none, some, List,
  [], ◌∷◌, arith, inl, inr, Bool-cases, ltb, str_eq, eq_iff, select, All, All-map, All-select_none,
  List-cases,
}
use poker_room_backend.Room.Models.{RoomRows, CreateRoom}
use poker_room_backend.Room.Repository.{generate_unique_code}
use poker_room_backend.Room.Commands.{create_room, new_room}

abbrev pub IsFresh : List String → String → Type 0
IsFresh codes code = All (λ c. c ≢ code) codes

unfresh :
    (codes : List String) (code c : String) {cs : List String}
    → select (λ d. str_eq d code) codes ≡ c ∷ cs
    → ¬ (IsFresh codes code)
unfresh [] code c h fresh = ground arith
unfresh (d ∷ codes) code c {cs} h fresh = elim (Bool-cases (str_eq d code)) [
  | inl it ↦ absurd (fresh.0 ((eq_iff d code).0 it))
  | inr other ↦ unfresh codes code c (rw other at h) fresh.1
]

fresh :
    (codes : List String) (code : String)
    → select (λ c. str_eq c code) codes ≡ []
    → IsFresh codes code
fresh codes code h =
    All-map (λ c miss e. differs (rw ((eq_iff c code).1 e) at miss)) codes
      (All-select_none (λ c. str_eq c code) codes h)
  where
    differs : true ≡ false → ⊥
    differs e = ground arith

some_inj : {a b : String} → some a ≡ some b → a ≡ b
some_inj e = cc

-- A code that is returned is fresh, and is one of the draws.
drawn-IsFresh :
    (codes : List String) (attempts : ℕ) (draw : ℕ → String) {code : String}
    → generate_unique_code codes attempts draw ≡ some code
    → IsFresh codes code × ((n : ℕ) × (n < attempts) × (code ≡ draw n))
unfolding generate_unique_code
drawn-IsFresh codes zero draw h = ground arith
drawn-IsFresh codes (suc attempts) draw {code} h =
    elim (List-cases (select (λ c. str_eq c (draw attempts)) codes)) [
      | inl empty ↦
          (let same = some_inj (rw (generate_unique_code, empty) at h) in
            (
              subst (IsFresh codes) same (fresh codes (draw attempts) empty),
              (attempts, omega arith, sym same),
            ))
      | inr (c, ds, taken) ↦
          (let (f, (n, lt, e)) =
              drawn-IsFresh codes attempts draw (rw (generate_unique_code, taken) at h) in
            (f, (n, omega (arith, lt), e)))
    ]

-- One fresh draw is enough.
drawn-total :
    (codes : List String) (attempts : ℕ) (draw : ℕ → String) (n : ℕ)
    → n < attempts
    → IsFresh codes (draw n)
    → generate_unique_code codes attempts draw ≢ none
unfolding generate_unique_code
drawn-total codes zero draw n lt f h = omega (arith, lt)
drawn-total codes (suc attempts) draw n lt f h =
    elim (List-cases (select (λ c. str_eq c (draw attempts)) codes)) [
      | inl empty ↦ some_ne (rw (generate_unique_code, empty) at h)
      | inr (c, ds, taken) ↦
          drawn-total codes attempts draw n (earlier c ds taken) f
            (rw (generate_unique_code, taken) at h)
    ]
  where
    some_ne : some (draw attempts) ≡ none → ⊥
    some_ne e = ground arith

    earlier :
        (c : String) (ds : List String)
        → select (λ c. str_eq c (draw attempts)) codes ≡ c ∷ ds
        → n < attempts
    earlier c ds taken = elim (n_cases n attempts lt) [
      | inl lt' ↦ lt'
      | inr same ↦
          absurd
            (unfresh codes (draw attempts) c taken (subst (λ m. IsFresh codes (draw m)) same f))
    ]
      where
        n_cases : (a b : ℕ) → a < suc b → (a < b) ⊎ (a ≡ b)
        n_cases a b h = elim (Bool-cases (ltb a b)) [
          | inl less ↦ inl (ground arith)
          | inr more ↦ inr (ground arith)
        ]

-- A room that is made has a code that no other room has; and a room is made if one of the 100 draws
-- is a code that no other room has.
pub create_room_lem :
    (room_id : String) (codes : List String) (draw : ℕ → String) (data' : CreateRoom)
    → ((rows : RoomRows)
        → create_room room_id codes draw data' ≡ some rows
        → IsFresh codes rows.room.code)
      × ((n : ℕ)
          → n < 100
          → IsFresh codes (draw n)
          → (rows : RoomRows) × (create_room room_id codes draw data' ≡ some rows))
unfolding create_room
create_room_lem room_id codes draw data' = (
  λ rows h.
      made (generate_unique_code codes 100 draw) (λ code e. (drawn-IsFresh codes 100 draw e).0) h,
  λ n lt f. total (generate_unique_code codes 100 draw) (drawn-total codes 100 draw n lt f),
)
  where
    make : Option String → Option RoomRows
    make o = elim o [ none ↦ none | some code ↦ some (new_room room_id code data') ]

    made :
        (o : Option String) {rows : RoomRows}
        → ((code : String) → o ≡ some code → IsFresh codes code)
        → make o ≡ some rows
        → IsFresh codes rows.room.code
    made none k h = ground arith
    made (some code) {rows} k h =
        subst (λ (r : RoomRows). IsFresh codes r.room.code) (same h) (k code refl)
      where
        same : some (new_room room_id code data') ≡ some rows → new_room room_id code data' ≡ rows
        same e = cc

    total : (o : Option String) → o ≢ none → (rows : RoomRows) × (make o ≡ some rows)
    total none ne = absurd (ne refl)
    total (some code) ne = (new_room room_id code data', refl)
