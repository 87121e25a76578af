-- ===== src/RealmService/Loads.antt =====
-- What an event does to the loads that realmd keeps for the addresses of a realm.
use morfeusz.Base.{
  ℕ, ◌≡◌, refl, Bool, true, false, List, [], ◌∷◌, Option, none, some, ◌==◌, if◌then◌else◌, bytes_eq,
  bytes_eq_sound, bytes_eq_refl, arith, Bool-cases, Option-cases, ◌⊎◌, inl, inr,
}
use morfeusz.RealmService.Map.{find, multi_insert}
use morfeusz.RealmService.{
  Realm, ProxyInfo, Service, Announcement, known, fresh, add_proxy, set_load, update_proxy_load,
  erase_ip, has_ip, delete_proxy, scan, settle, process_proxy_announce,
}
use morfeusz.RealmService.Registry.{has_pair, has_pair-find}

-- Whether two pairs of a realm and an address are the same.
abbrev pub same_pair : ℕ → List ℕ → ℕ → List ℕ → Bool
same_pair j i k ip = if j == k then bytes_eq i ip else false

module _ {L : Type 0} where
  -- The load kept for an address of a realm.
  pub load_of : ℕ → List ℕ → List (ℕ × ProxyInfo L) → Option L
  load_of k ip [] = none
  load_of k ip ((j, p) ∷ ps) =
      let rest = load_of k ip ps in
      if j == k then (if bytes_eq p.ip ip then some p.load else rest) else rest

  -- Whether the address stands in the list for another realm.
  unfoldable pub elsewhere : ℕ → List ℕ → List (ℕ × ProxyInfo L) → Bool
  elsewhere k ip [] = false
  elsewhere k ip ((j, p) ∷ ps) =
      let rest = elsewhere k ip ps in
      if j == k then rest else if bytes_eq p.ip ip then true else rest

  load_of-multi_insert :
      (k j : ℕ) (ip : List ℕ) (p : ProxyInfo L) (m : List (ℕ × ProxyInfo L))
      → has_pair j p.ip m ≡ false
      → load_of k ip (multi_insert j p m) ≡ (
          if j == k
          then (if bytes_eq p.ip ip then some p.load else load_of k ip m)
          else load_of k ip m)
  unfolding load_of multi_insert has_pair
  load_of-multi_insert k j ip p [] h = refl
  load_of-multi_insert k j ip p ((i, q) ∷ m) h = ground (
    arith,
    load_of-multi_insert k j ip p m,
    bytes_eq_sound q.ip ip,
    bytes_eq_sound p.ip ip,
    bytes_eq_refl ip,
  )

  scan_lem :
      (k : ℕ) (ip : List ℕ) (m : List (ℕ × ProxyInfo L))
      → elsewhere k ip m ≡ false
      → scan k ip m ≡ (if has_pair k ip m then known else fresh)
  unfolding scan elsewhere has_pair
  scan_lem k ip [] h = refl
  scan_lem k ip ((j, p) ∷ ps) h = ground (arith, scan_lem k ip ps)

  load_of-set_load :
      (k j : ℕ) (ip i : List ℕ) (load : L) (m : List (ℕ × ProxyInfo L))
      → elsewhere j i m ≡ false
      → load_of k ip (set_load i load m) ≡ (
          if j == k
          then (if bytes_eq i ip
              then (if has_pair j i m then some load else none)
              else load_of k ip m)
          else load_of k ip m)
  unfolding load_of set_load elsewhere has_pair
  load_of-set_load k j ip i load [] h = ground arith
  load_of-set_load k j ip i load ((l, q) ∷ m) h = ground (
    arith,
    load_of-set_load k j ip i load m,
    bytes_eq_sound q.ip ip,
    bytes_eq_sound q.ip i,
    bytes_eq_sound i ip,
    bytes_eq_refl ip,
  )

  -- `s'` is `s` with the announced load under its realm and address, and nothing else changed.
  pub record Announced (a : Announcement L) (s s' : Service L) : Type 0 where
    pub loads :
        (k : ℕ) (ip : List ℕ)
        → load_of k ip s'.proxies
          ≡ (if same_pair a.realm_id a.address k ip then some a.load else load_of k ip s.proxies)
    pub same_realms : s'.realm_map ≡ s.realm_map
    pub same_requests : s'.requests ≡ s.requests

  add_proxy-Announced :
      (a : Announcement L) (s : Service L)
      → has_pair a.realm_id a.address s.proxies ≡ false
      → Announced a s (add_proxy a.realm_id a.address a.load s)
  unfolding add_proxy
  add_proxy-Announced a s new = record {
    loads = λ k ip. ground (
      arith,
      load_of-multi_insert k a.realm_id ip (record { ip = a.address; load = a.load }) s.proxies new,
    );
    same_realms = refl;
    same_requests = refl;
  }

  update_proxy_load-Announced :
      (a : Announcement L) (s : Service L)
      → has_pair a.realm_id a.address s.proxies ≡ true
      → elsewhere a.realm_id a.address s.proxies ≡ false
      → Announced a s (update_proxy_load a.address a.load s)
  unfolding update_proxy_load
  update_proxy_load-Announced a s old h = record {
    loads = λ k ip. ground (arith, load_of-set_load k a.realm_id ip a.address a.load s.proxies h);
    same_realms = refl;
    same_requests = refl;
  }

  -- An announcement for a realm of the list, from an address that no other realm has, leaves the
  -- announced load under that realm and address and every other load, the realms and the
  -- requests as they were. realmd survives it.
  pub process_proxy_announce_loads :
      (a : Announcement L) (s : Service L) (r : Realm)
      → find a.realm_id s.realm_map ≡ some r
      → elsewhere a.realm_id a.address s.proxies ≡ false
      → (s' : Service L) × (process_proxy_announce a s ≡ some s') × Announced a s s'
  unfolding process_proxy_announce settle
  process_proxy_announce_loads a s r e h = elim (Option-cases (find a.realm_id s.proxies)) [
    | inl first ↦ (
      add_proxy a.realm_id a.address a.load s,
      rw (e, first, process_proxy_announce) refl,
      add_proxy-Announced a s (has_pair-find a.realm_id a.address s.proxies first),
    )
    | inr (p, more) ↦ elim (Bool-cases (has_pair a.realm_id a.address s.proxies)) [
      | inl old ↦ (
        update_proxy_load a.address a.load s,
        rw (e, more, scan_lem a.realm_id a.address s.proxies h, old, process_proxy_announce) refl,
        update_proxy_load-Announced a s old h,
      )
      | inr new ↦ (
        add_proxy a.realm_id a.address a.load s,
        rw (e, more, scan_lem a.realm_id a.address s.proxies h, new, process_proxy_announce) refl,
        add_proxy-Announced a s new,
      )
    ]
  ]

  load_of-erase_ip :
      (k : ℕ) (ip i : List ℕ) (m : List (ℕ × ProxyInfo L))
      → load_of k ip (erase_ip i m) ≡ (if bytes_eq i ip then none else load_of k ip m)
  unfolding load_of erase_ip
  load_of-erase_ip k ip i [] = ground arith
  load_of-erase_ip k ip i ((j, p) ∷ ps) = ground (
    arith,
    load_of-erase_ip k ip i ps,
    bytes_eq_sound p.ip i,
    bytes_eq_sound i ip,
    bytes_eq_sound p.ip ip,
    bytes_eq_refl ip,
  )

  -- A shutdown aborts realmd exactly when no proxy has the address; else it removes the address
  -- from every realm and leaves all other loads, the realms and the requests as they were.
  pub delete_proxy_lem :
      (address : List ℕ) (s : Service L)
      → ((has_ip address s.proxies ≡ false) × (delete_proxy address s ≡ none))
        ⊎ ((s' : Service L) × (has_ip address s.proxies ≡ true)
            × (delete_proxy address s ≡ some s')
            × ((k : ℕ) (ip : List ℕ)
                → load_of k ip s'.proxies
                  ≡ (if bytes_eq address ip then none else load_of k ip s.proxies))
            × (s'.realm_map ≡ s.realm_map)
            × (s'.requests ≡ s.requests))
  unfolding delete_proxy
  delete_proxy_lem address s = elim (Bool-cases (has_ip address s.proxies)) [
    | inl there ↦ inr (
      record s { proxies = erase_ip address s.proxies },
      there,
      rw there refl,
      (λ k ip. load_of-erase_ip k ip address s.proxies),
      refl,
      refl,
    )
    | inr missing ↦ inl (missing, rw missing refl)
  ]
