-- ===== src/RealmService.antt =====
-- realmd/Realm_Service.h and .cpp, and request_proxies, request_proxies_for_realm and push of
-- realmd/Realm_EC_Communicator.cpp: the realms, and the proxies that announce themselves for them.
-- A float is its bit pattern where it is only carried, and a value of a parameter `L` where loads
-- are compared. Logging, the reactor, the threads and CORBA's own calls are left out.
pub mod Map
pub mod Selection
pub mod Registry
pub mod Announce
pub mod Loads
use morfeusz.Base.{
  ℕ, Bool, true, false, List, [], ◌∷◌, ◌++◌, map, Option, none, some, ◌>>=◌, ltb, ◌==◌,
  if◌then◌else◌, bytes_eq, u8,
}
use Map.{find, map_set, multi_insert}

pub record Realm : Type 0 where
  pub name : List ℕ
  pub icon : ℕ
  pub color : ℕ
  pub timezone : ℕ
  pub allowed_security_level : ℕ
  pub population : ℕ
  pub build : ℕ

pub record ProxyInfo (L : Type 0) : Type 0 where
  pub ip : List ℕ
  pub load : L

-- `requests` are the realms that request_proxies_for_realm pushed to the event channel, in order.
pub record Service (L : Type 0) : Type 0 where
  pub realm_map : List (ℕ × Realm)
  pub proxies : List (ℕ × ProxyInfo L)
  pub requests : List ℕ

-- Morpheus::Proxy_Announce
pub record Announcement (L : Type 0) : Type 0 where
  pub realm_id : ℕ
  pub address : List ℕ
  pub load : L

-- The rows of the result set; the key of the map is an uint8. No result set is `none`.
pub add_realms : List (ℕ × Realm) → List (ℕ × Realm) → List (ℕ × Realm)
add_realms [] m = m
add_realms ((id, rlm) ∷ rows) m = add_realms rows (map_set (u8 id) rlm m)

-- What the loop of process_proxy_announce finds: the proxy itself, nothing, or its address
-- under another realm.
pub data Scan : Type 0 where
  known fresh : Scan
  duplicate : ℕ → Scan

-- The events that change the service: what EC_Communicator::push gets, and the realm list.
pub data Event (L : Type 0) : Type 0 where
  proxy_announce : Announcement L → Event L
  proxy_shutdowned : List ℕ → Event L
  unhandled : Event L
  realm_rows : Option (List (ℕ × Realm)) → Event L

module _ {L : Type 0} where
  pub add_proxy : ℕ → List ℕ → L → Service L → Service L
  add_proxy realm ip load s = record s {
    proxies = multi_insert realm (record { ip = ip; load = load }) s.proxies;
  }

  -- The first entry with the address gets the load.
  unfoldable pub set_load : List ℕ → L → List (ℕ × ProxyInfo L) → List (ℕ × ProxyInfo L)
  set_load ip load [] = []
  set_load ip load ((k, p) ∷ ps) =
      if bytes_eq p.ip ip then (k, record p { load = load }) ∷ ps else (k, p) ∷ set_load ip load ps

  unfoldable pub update_proxy_load : List ℕ → L → Service L → Service L
  update_proxy_load ip load s = record s { proxies = set_load ip load s.proxies }

  -- The erasing loop of delete_proxy, and its `deleted`.
  pub erase_ip : List ℕ → List (ℕ × ProxyInfo L) → List (ℕ × ProxyInfo L)
  erase_ip ip [] = []
  erase_ip ip ((k, p) ∷ ps) =
      let rest = erase_ip ip ps in if bytes_eq p.ip ip then rest else (k, p) ∷ rest

  pub has_ip : List ℕ → List (ℕ × ProxyInfo L) → Bool
  has_ip ip [] = false
  has_ip ip ((k, p) ∷ ps) = if bytes_eq p.ip ip then true else has_ip ip ps

  -- `none` is the failed ASSERT(deleted).
  pub delete_proxy : List ℕ → Service L → Option (Service L)
  delete_proxy ip s =
      if has_ip ip s.proxies then some (record s { proxies = erase_ip ip s.proxies }) else none

  pub request_proxies_for_realm : ℕ → Service L → Service L
  request_proxies_for_realm id s = record s { requests = s.requests ++ id ∷ [] }

  -- request_proxies: delete_proxies(), then a request for every realm.
  pub request_proxies : Service L → Service L
  request_proxies s = record s { proxies = []; requests = s.requests ++ map (λ e. e.0) s.realm_map }

  pub update_realms : Option (List (ℕ × Realm)) → Service L → Service L
  update_realms none s = s
  update_realms (some rows) s =
      request_proxies (record s { realm_map = add_realms rows s.realm_map })

  unfoldable pub scan : ℕ → List ℕ → List (ℕ × ProxyInfo L) → Scan
  scan realm_id address [] = fresh
  scan realm_id address ((k, p) ∷ ps) =
      let rest = scan realm_id address ps in
      if k == realm_id
      then (if bytes_eq p.ip address then known else rest)
      else if bytes_eq p.ip address
      then duplicate k
      else rest

  unfoldable pub settle : ℕ → List ℕ → L → Service L → Scan → Option (Service L)
  settle realm_id address load s known = some (update_proxy_load address load s)
  settle realm_id address load s fresh = some (add_proxy realm_id address load s)
  settle realm_id address load s (duplicate other) = do
    s' ← delete_proxy address s
    some (request_proxies_for_realm realm_id (request_proxies_for_realm other s'))

  -- The realm to ask for again is the erased entry's key: the source reads it after erasing.
  unfoldable pub process_proxy_announce : Announcement L → Service L → Option (Service L)
  unfolding settle
  process_proxy_announce a s = elim (find a.realm_id s.realm_map) [
    | none ↦ some s
    | some r ↦ elim (find a.realm_id s.proxies) [
      | none ↦ some (add_proxy a.realm_id a.address a.load s)
      | some p ↦ settle a.realm_id a.address a.load s (scan a.realm_id a.address s.proxies)
    ]
  ]

  unfoldable pub handle : Event L → Service L → Option (Service L)
  handle (proxy_announce a) s = process_proxy_announce a s
  handle (proxy_shutdowned address) s = delete_proxy address s
  handle unhandled s = some s
  handle (realm_rows rows) s = some (update_realms rows s)

  -- get_proxy_for_realm: first the proxies of the realm, then the walk to the lowest load.
  unfoldable pub proxies_for_realm : ℕ → List (ℕ × ProxyInfo L) → List (ProxyInfo L)
  proxies_for_realm id [] = []
  proxies_for_realm id ((k, p) ∷ ps) =
      let rest = proxies_for_realm id ps in if k == id then p ∷ rest else rest

module _ {L : Type 0} (lt_load : L → L → Bool) where
  unfoldable pub lowest_load : ProxyInfo L → List (ProxyInfo L) → ProxyInfo L
  lowest_load lowest [] = lowest
  lowest_load lowest (p ∷ ps) = lowest_load (if lt_load p.load lowest.load then p else lowest) ps

  unfoldable pub select : List (ProxyInfo L) → List ℕ
  select [] = []
  select (p ∷ ps) = let best = lowest_load p (p ∷ ps) in best.ip

  unfoldable pub get_proxy_for_realm : ℕ → Service L → List ℕ
  unfolding select
  get_proxy_for_realm id s = select (proxies_for_realm id s.proxies)
