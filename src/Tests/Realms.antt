-- ===== src/Tests/Realms.antt =====
-- The realm service with two realms and three proxies, and the write queue of a socket.
use morfeusz.Base.{
  ℕ, ◌≡◌, refl, true, false, ◌⊎◌, List, [], ◌∷◌, none, some, arith, ltb, bytes_eq, if◌then◌else◌,
}
use morfeusz.ByteBuffer.{ByteBuffer}
use morfeusz.ByteBuffer.Append.{filled}
use morfeusz.RealmService.{
  Realm, ProxyInfo, Service, Announcement, Event, has_ip, delete_proxy, process_proxy_announce,
  settle, scan, handle, proxies_for_realm, set_load, update_proxy_load, get_proxy_for_realm,
}
use morfeusz.RealmService.Map.{find}
use morfeusz.RealmService.Selection.{IsLoadOrder, OneOf, NoneLower, get_proxy_for_realm_lem}
use morfeusz.RealmService.Registry.{has_pair, IsRegistry}
use morfeusz.RealmService.Announce.{handle-IsRegistry}
use morfeusz.RealmService.Loads.{
  load_of, elsewhere, Announced, process_proxy_announce_loads, delete_proxy_lem,
}

abbrev realm : Realm
realm = record {
  name = 65 ∷ [];
  icon = 0;
  color = 0;
  timezone = 1;
  allowed_security_level = 0;
  population = 0;
  build = 8606;
}

abbrev proxy : ℕ → ℕ → ProxyInfo ℕ
proxy ip load = record { ip = ip ∷ []; load = load }

abbrev service : Service ℕ
service = record {
  realm_map = (1, realm) ∷ (2, realm) ∷ [];
  proxies = (1, proxy 10 7) ∷ (1, proxy 11 3) ∷ (2, proxy 12 5) ∷ [];
  requests = [];
}

service-IsRegistry : IsRegistry service
unfolding has_pair find bytes_eq
service-IsRegistry = record {
  sorted = ground arith;
  distinct = (refl, (refl, (refl, tt)));
  all_known = ((realm, refl), ((realm, refl), ((realm, refl), tt)));
}

abbrev announcement : Announcement ℕ
announcement = record { realm_id = 1; address = 11 ∷ []; load = 9 }

abbrev updated : Service ℕ
updated = record service { proxies = (1, proxy 10 7) ∷ (1, proxy 11 9) ∷ (2, proxy 12 5) ∷ [] }

announced : handle (Event.proxy_announce announcement) service ≡ some updated
unfolding handle process_proxy_announce find settle scan update_proxy_load set_load bytes_eq
announced = refl

handle-IsRegistry_example : IsRegistry updated
handle-IsRegistry_example =
    handle-IsRegistry (Event.proxy_announce announcement) service updated service-IsRegistry
      announced

realm_found : find 1 service.realm_map ≡ some realm
unfolding find
realm_found = refl

not_elsewhere : elsewhere 1 (11 ∷ []) service.proxies ≡ false
unfolding elsewhere bytes_eq
not_elsewhere = refl

process_proxy_announce_loads_example :
    (s' : Service ℕ) × (process_proxy_announce announcement service ≡ some s')
    × Announced announcement service s'
process_proxy_announce_loads_example =
    process_proxy_announce_loads announcement service realm realm_found not_elsewhere

delete_proxy_example :
    ((has_ip (12 ∷ []) service.proxies ≡ false) × (delete_proxy (12 ∷ []) service ≡ none))
    ⊎ ((s' : Service ℕ) × (has_ip (12 ∷ []) service.proxies ≡ true)
        × (delete_proxy (12 ∷ []) service ≡ some s')
        × ((k : ℕ) (ip : List ℕ)
            → load_of k ip s'.proxies
              ≡ (if bytes_eq (12 ∷ []) ip then none else load_of k ip service.proxies))
        × (s'.realm_map ≡ service.realm_map)
        × (s'.requests ≡ service.requests))
delete_proxy_example = delete_proxy_lem (12 ∷ []) service

ltb-IsLoadOrder : IsLoadOrder ℕ ltb
ltb-IsLoadOrder = record {
  irrefl = λ a. ground arith;
  not_lt_trans = λ a b c h k. ground arith;
  lt_asymm = λ a b h. ground arith;
}

get_proxy_for_realm_example :
    ((proxies_for_realm 1 service.proxies ≡ []) × (get_proxy_for_realm ltb 1 service ≡ []))
    ⊎ ((best : ProxyInfo ℕ) × OneOf ltb ltb-IsLoadOrder best (proxies_for_realm 1 service.proxies)
        × (get_proxy_for_realm ltb 1 service ≡ best.ip)
        × NoneLower ltb ltb-IsLoadOrder best.load (proxies_for_realm 1 service.proxies))
get_proxy_for_realm_example = get_proxy_for_realm_lem ltb ltb-IsLoadOrder 1 service

abbrev packet : ByteBuffer
packet = filled (1 ∷ 2 ∷ 3 ∷ 4 ∷ 5 ∷ []) 0
