-- ===== src/RealmService/Map.antt =====
-- std::map and std::multimap as lists in the order of their keys, as far as realmd uses them.
use morfeusz.Base.{
  ℕ, ◌≤◌, ◌≡◌, refl, List, [], ◌∷◌, Option, none, some, ltb, ◌==◌, if◌then◌else◌, arith,
}

module _ {ℓ} {V : Type ℓ} where
  -- find: the first entry with the key.
  unfoldable pub find : ℕ → List (ℕ × V) → Option V
  find k [] = none
  find k ((j, v) ∷ m) = if j == k then some v else find k m

  -- m[k] = v
  unfoldable pub map_set : ℕ → V → List (ℕ × V) → List (ℕ × V)
  map_set k v [] = (k, v) ∷ []
  map_set k v ((j, w) ∷ m) =
      let rest = map_set k v m in
      if ltb k j then (k, v) ∷ (j, w) ∷ m else if j == k then (k, v) ∷ m else (j, w) ∷ rest

  -- multimap::insert: behind the entries with the same key.
  unfoldable pub multi_insert : ℕ → V → List (ℕ × V) → List (ℕ × V)
  multi_insert k v [] = (k, v) ∷ []
  multi_insert k v ((j, w) ∷ m) =
      let rest = multi_insert k v m in if ltb k j then (k, v) ∷ (j, w) ∷ m else (j, w) ∷ rest

  -- The keys do not fall, from `lo` on.
  abbrev pub SortedFrom : ℕ → List (ℕ × V) → Type 0
  SortedFrom lo [] = Unit {0}
  SortedFrom lo ((k, v) ∷ m) = (lo ≤ k) × SortedFrom k m

  pub multi_insert-SortedFrom :
      (lo k : ℕ) (v : V) (m : List (ℕ × V))
      → lo ≤ k
      → SortedFrom lo m
      → SortedFrom lo (multi_insert k v m)
  unfolding multi_insert
  multi_insert-SortedFrom lo k v [] h s = (h, tt)
  multi_insert-SortedFrom lo k v ((j, w) ∷ m) h s = ground (arith, multi_insert-SortedFrom j k v m)

  pub SortedFrom-mono :
      (lo lo' : ℕ) (m : List (ℕ × V)) → lo' ≤ lo → SortedFrom lo m → SortedFrom lo' m
  SortedFrom-mono lo lo' [] h s = tt
  SortedFrom-mono lo lo' ((k, v) ∷ m) h s = (omega arith, s.1)

  pub find-map_set :
      (k j : ℕ) (v : V) (m : List (ℕ × V))
      → find j (map_set k v m) ≡ (if k == j then some v else find j m)
  unfolding find map_set
  find-map_set k j v [] = refl
  find-map_set k j v ((i, w) ∷ m) = ground (arith, find-map_set k j v m)
