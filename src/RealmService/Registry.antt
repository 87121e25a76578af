-- ===== src/RealmService/Registry.antt =====
-- The list of proxies of realmd/Realm_Service.cpp stays in order, names only realms that exist,
-- and holds no address twice for one realm.
use morfeusz.Base.{
  ℕ, ◌≡◌, refl, Bool, true, false, List, [], ◌∷◌, none, some, ltb, ◌==◌, if◌then◌else◌, bytes_eq,
  bytes_eq_comm, arith, Bool-cases, inl, inr,
}
use morfeusz.RealmService.Map.{find, multi_insert, SortedFrom, SortedFrom-mono}
use morfeusz.RealmService.{Realm, ProxyInfo, Service, fresh, set_load, erase_ip, scan}

module _ {L : Type 0} where
  -- Whether the address stands in the list for the realm.
  unfoldable pub has_pair : ℕ → List ℕ → List (ℕ × ProxyInfo L) → Bool
  has_pair k ip [] = false
  has_pair k ip ((j, p) ∷ ps) =
      let rest = has_pair k ip ps in
      if j == k then (if bytes_eq p.ip ip then true else rest) else rest

  abbrev pub Distinct : List (ℕ × ProxyInfo L) → Type 0
  Distinct [] = Unit {0}
  Distinct ((k, p) ∷ ps) = (has_pair k p.ip ps ≡ false) × Distinct ps

  abbrev pub AllKnown : List (ℕ × Realm) → List (ℕ × ProxyInfo L) → Type 0
  AllKnown m [] = Unit {0}
  AllKnown m ((k, p) ∷ ps) = ((r : Realm) × (find k m ≡ some r)) × AllKnown m ps

  pub record IsRegistry (s : Service L) : Type 0 where
    pub sorted : SortedFrom 0 s.proxies
    pub distinct : Distinct s.proxies
    pub all_known : AllKnown s.realm_map s.proxies

  pub has_pair-multi_insert :
      (k j : ℕ) (ip : List ℕ) (p : ProxyInfo L) (m : List (ℕ × ProxyInfo L))
      → has_pair k ip (multi_insert j p m)
        ≡ (if j == k then (if bytes_eq p.ip ip then true else has_pair k ip m) else has_pair k ip m)
  unfolding has_pair multi_insert
  has_pair-multi_insert k j ip p [] = refl
  has_pair-multi_insert k j ip p ((i, q) ∷ m) = ground (arith, has_pair-multi_insert k j ip p m)

  pub Distinct-multi_insert :
      (k : ℕ) (p : ProxyInfo L) (m : List (ℕ × ProxyInfo L))
      → has_pair k p.ip m ≡ false
      → Distinct m
      → Distinct (multi_insert k p m)
  unfolding has_pair multi_insert
  Distinct-multi_insert k p [] h d = (refl, tt)
  Distinct-multi_insert k p ((j, q) ∷ m) h d = ground (
    arith,
    has_pair-multi_insert j k q.ip p m,
    bytes_eq_comm p.ip q.ip,
    Distinct-multi_insert k p m,
  )

  pub AllKnown-multi_insert :
      (realms : List (ℕ × Realm)) (k : ℕ) (p : ProxyInfo L) (m : List (ℕ × ProxyInfo L)) (r : Realm)
      → find k realms ≡ some r
      → AllKnown realms m
      → AllKnown realms (multi_insert k p m)
  unfolding multi_insert
  AllKnown-multi_insert realms k p [] r e h = ((r, e), tt)
  AllKnown-multi_insert realms k p ((j, q) ∷ m) r e h = elim (Bool-cases (ltb k j)) [
    | inl before ↦ rw before ((r, e), (h.0, h.1))
    | inr after ↦ rw after (h.0, AllKnown-multi_insert realms k p m r e h.1)
  ]

  has_pair-erase_ip :
      (k : ℕ) (i ip : List ℕ) (m : List (ℕ × ProxyInfo L))
      → has_pair k i m ≡ false
      → has_pair k i (erase_ip ip m) ≡ false
  unfolding has_pair erase_ip
  has_pair-erase_ip k i ip [] h = refl
  has_pair-erase_ip k i ip ((j, q) ∷ m) h = ground (arith, has_pair-erase_ip k i ip m)

  pub Distinct-erase_ip :
      (ip : List ℕ) (m : List (ℕ × ProxyInfo L)) → Distinct m → Distinct (erase_ip ip m)
  unfolding erase_ip
  Distinct-erase_ip ip [] d = tt
  Distinct-erase_ip ip ((j, q) ∷ m) d =
      ground (arith, has_pair-erase_ip j q.ip ip m, Distinct-erase_ip ip m)

  pub SortedFrom-erase_ip :
      (lo : ℕ) (ip : List ℕ) (m : List (ℕ × ProxyInfo L))
      → SortedFrom lo m
      → SortedFrom lo (erase_ip ip m)
  unfolding erase_ip
  SortedFrom-erase_ip lo ip [] s = tt
  SortedFrom-erase_ip lo ip ((j, q) ∷ m) s =
      ground (arith, SortedFrom-erase_ip j ip m, SortedFrom-mono j lo (erase_ip ip m))

  pub AllKnown-erase_ip :
      (realms : List (ℕ × Realm)) (ip : List ℕ) (m : List (ℕ × ProxyInfo L))
      → AllKnown realms m
      → AllKnown realms (erase_ip ip m)
  unfolding erase_ip
  AllKnown-erase_ip realms ip [] h = tt
  AllKnown-erase_ip realms ip ((j, q) ∷ m) h = elim (Bool-cases (bytes_eq q.ip ip)) [
    | inl gone ↦ rw gone (AllKnown-erase_ip realms ip m h.1)
    | inr kept ↦ rw kept (h.0, AllKnown-erase_ip realms ip m h.1)
  ]

  has_pair-set_load :
      (k : ℕ) (i ip : List ℕ) (load : L) (m : List (ℕ × ProxyInfo L))
      → has_pair k i (set_load ip load m) ≡ has_pair k i m
  unfolding has_pair set_load
  has_pair-set_load k i ip load [] = refl
  has_pair-set_load k i ip load ((j, q) ∷ m) = ground (arith, has_pair-set_load k i ip load m)

  pub Distinct-set_load :
      (ip : List ℕ) (load : L) (m : List (ℕ × ProxyInfo L))
      → Distinct m
      → Distinct (set_load ip load m)
  unfolding set_load
  Distinct-set_load ip load [] d = tt
  Distinct-set_load ip load ((j, q) ∷ m) d =
      ground (arith, has_pair-set_load j q.ip ip load m, Distinct-set_load ip load m)

  pub SortedFrom-set_load :
      (lo : ℕ) (ip : List ℕ) (load : L) (m : List (ℕ × ProxyInfo L))
      → SortedFrom lo m
      → SortedFrom lo (set_load ip load m)
  unfolding set_load
  SortedFrom-set_load lo ip load [] s = tt
  SortedFrom-set_load lo ip load ((j, q) ∷ m) s = ground (arith, SortedFrom-set_load j ip load m)

  pub AllKnown-set_load :
      (realms : List (ℕ × Realm)) (ip : List ℕ) (load : L) (m : List (ℕ × ProxyInfo L))
      → AllKnown realms m
      → AllKnown realms (set_load ip load m)
  unfolding set_load
  AllKnown-set_load realms ip load [] h = tt
  AllKnown-set_load realms ip load ((j, q) ∷ m) h = elim (Bool-cases (bytes_eq q.ip ip)) [
    | inl hit ↦ rw hit (h.0, h.1)
    | inr miss ↦ rw miss (h.0, AllKnown-set_load realms ip load m h.1)
  ]

  -- The scan misses no entry of the realm with the address.
  pub has_pair-scan :
      (realm_id : ℕ) (address : List ℕ) (ps : List (ℕ × ProxyInfo L))
      → scan realm_id address ps ≡ fresh
      → has_pair realm_id address ps ≡ false
  unfolding has_pair scan
  has_pair-scan realm_id address [] e = refl
  has_pair-scan realm_id address ((k, p) ∷ ps) e = ground (arith, has_pair-scan realm_id address ps)

  pub has_pair-find :
      (realm_id : ℕ) (address : List ℕ) (ps : List (ℕ × ProxyInfo L))
      → find realm_id ps ≡ none
      → has_pair realm_id address ps ≡ false
  unfolding has_pair find
  has_pair-find realm_id address [] e = refl
  has_pair-find realm_id address ((k, p) ∷ ps) e = ground (arith, has_pair-find realm_id address ps)
