-- ===== src/ProxyDatabase/Observers/StartPlaces.antt =====
-- game/ObjectMgr.h: what the manager gives after the start places have been loaded from the database.
use morfeusz.Base.{
  ℕ, zero, suc, ◌+◌, ◌-◌, ◌*◌, ◌%◌, ◌^◌, ◌≤◌, ◌<◌, ◌≡◌, ◌≢◌, refl, sym, ap, ◌∙◌, inl, inr, false,
  ◌&&◌, ◌||◌, List, [], ◌∷◌, Option, some, ◌>>=◌, arith, ltb, ◌==◌, if◌then◌else◌, length, set,
  get_elem?, get_elem?-set, length-set, subst, Bool-cases, Option-cases, eq_of_some,
}
use morfeusz.ProxyDatabase.{Rows}
use morfeusz.ObjectMgr.{
  PlayerCreateInfo, ObjectMgr, race_max, class_max, place, set_player_create_info,
  get_player_create_info,
}
use morfeusz.ProxyDatabase.Observers.{Start, read_start, load_starts, create_info_loaded}

-- The rows that are left, read one after the other.
unfoldable pub starts_of : Rows → ℕ → ℕ → Option (List Start)
starts_of res zero row = some []
starts_of res (suc left) row = do
  start ← read_start res row
  rest ← starts_of res left (row + 1)
  some (start ∷ rest)

abbrev pub InRange : ℕ → ℕ → Type 0
InRange race pclass = (0 < race) × (race ≤ race_max) × (0 < pclass) × (pclass ≤ class_max)

abbrev pub AllInRange : List Start → Type 0
AllInRange [] = Unit {0}
AllInRange (r ∷ rest) = InRange r.race r.pclass × AllInRange rest

-- What the last row for a race and a class says.
unfoldable pub last_start : ℕ → ℕ → List Start → Option PlayerCreateInfo → Option PlayerCreateInfo
last_start race pclass [] old = old
last_start race pclass (r ∷ rest) old =
    last_start race pclass rest (if r.race == race && r.pclass == pclass then some r.info else old)

get_elem?-set_other :
    {A : Type 0} (xs : List A) (i j : ℕ) (v : A) → i ≢ j → get_elem? (set xs i v) j ≡ get_elem? xs j
get_elem?-set_other [] i j v h = refl
get_elem?-set_other (x ∷ xs) zero zero v h = absurd (h refl)
get_elem?-set_other (x ∷ xs) zero (suc j) v h = refl
get_elem?-set_other (x ∷ xs) (suc i) zero v h = refl
get_elem?-set_other (x ∷ xs) (suc i) (suc j) v h = get_elem?-set_other xs i j v (λ e. h (ap suc e))

place-InRange :
    (race pclass : ℕ)
    → InRange race pclass
    → place race pclass ≡ some ((race - 1) * 12 + (pclass - 1))
unfolding place
place-InRange race pclass h =
    let inside : ((race == 0 || ltb race_max race) || (pclass == 0 || ltb class_max pclass))
        ≡ false =
      ground arith in
    rw inside refl

-- A place that has been set, and the others.
get-set_player_create_info :
    (m : ObjectMgr) (r : Start) (race pclass : ℕ)
    → length m.player_create_info ≡ 144
    → InRange r.race r.pclass
    → InRange race pclass
    → (m' : ObjectMgr) × (set_player_create_info r.race r.pclass r.info m ≡ some m')
      × (length m'.player_create_info ≡ 144)
      × (get_player_create_info race pclass m' ≡ (
          if r.race == race && r.pclass == pclass
          then some r.info
          else get_player_create_info race pclass m))
unfolding set_player_create_info get_player_create_info
get-set_player_create_info m r race pclass len here there =
    let i = (r.race - 1) * 12 + (r.pclass - 1) in
    let j = (race - 1) * 12 + (pclass - 1) in
    let m' = record m { player_create_info = set m.player_create_info i (some r.info) } in
    (
      m',
      rw (place-InRange r.race r.pclass here) refl,
      length-set m.player_create_info i (some r.info) ∙ len,
      rw (place-InRange race pclass there)
          (elim (Bool-cases (r.race == race && r.pclass == pclass)) [
            | inl e ↦
                let same : i ≡ j = ground arith in
                let at : get_elem? (set m.player_create_info i (some r.info)) j
                    ≡ some (some r.info) =
                  rw (sym same)
                    (get_elem?-set m.player_create_info i (some r.info) (omega (arith, len))) in
                rw (e, at) refl
            | inr e ↦
                let other : i ≢ j = ground arith in
                rw (e, get_elem?-set_other m.player_create_info i j (some r.info) other) refl
          ]),
    )

load_starts_lem :
    (res : Rows) (left row : ℕ) (starts : List Start) (m : ObjectMgr) (race pclass : ℕ)
    → starts_of res left row ≡ some starts
    → AllInRange starts
    → length m.player_create_info ≡ 144
    → InRange race pclass
    → (m' : ObjectMgr) × (load_starts res left row m ≡ some m')
      × (get_player_create_info race pclass m'
          ≡ last_start race pclass starts (get_player_create_info race pclass m))
unfolding load_starts starts_of last_start
load_starts_lem res zero row starts m race pclass e valid len there =
    (m, refl, rw (sym (eq_of_some e)) refl)
load_starts_lem res (suc left) row starts m race pclass e valid len there =
    elim (Option-cases (read_start res row)) [
      | inl f ↦ absurd cc
      | inr (r, f) ↦ elim (Option-cases (starts_of res left (row + 1))) [
        | inl g ↦ absurd cc
        | inr (rest, g) ↦
            let all : r ∷ rest ≡ starts = cc in
            let ok : AllInRange (r ∷ rest) = subst AllInRange (sym all) valid in
            let (m1, h, len1, here) = get-set_player_create_info m r race pclass len ok.0 there in
            let (m', k, at) =
              load_starts_lem res left (row + 1) rest m1 race pclass g ok.1 len1 there in
            (m', rw (f, h) k, rw (sym all) (at ∙ ap (last_start race pclass rest) here))
      ]
    ]

-- If every row can be read and names a race and a class of the manager's table, and the table has its
-- 144 places, then all rows are loaded, the callback is given their count modulo 256, and the manager
-- gives for a race and a class what the last of their rows says, or without one what it gave before.
pub create_info_loaded-last_start :
    (res : Rows) (starts : List Start) (m : ObjectMgr) (race pclass : ℕ)
    → starts_of res res.rows_count 0 ≡ some starts
    → AllInRange starts
    → length m.player_create_info ≡ 144
    → InRange race pclass
    → (m' : ObjectMgr) × (create_info_loaded res m ≡ some (res.rows_count % 2 ^ 8, m'))
      × (get_player_create_info race pclass m'
          ≡ last_start race pclass starts (get_player_create_info race pclass m))
unfolding create_info_loaded load_starts
create_info_loaded-last_start res starts m race pclass e valid len there =
    let (m', loaded, at) =
      load_starts_lem res res.rows_count 0 starts m race pclass e valid len there in
    elim (Bool-cases (res.rows_count == 0)) [
      | inl f ↦
          let none_left : res.rows_count ≡ 0 = ground arith in
          let count : res.rows_count % 2 ^ 8 ≡ 0 = omega arith in
          let same : some m ≡ some m' =
            subst (λ n. load_starts res n 0 m ≡ some m') none_left loaded in
          (m', rw (f, count, eq_of_some same) refl, at)
      | inr f ↦ (m', rw (f, loaded) refl, at)
    ]
