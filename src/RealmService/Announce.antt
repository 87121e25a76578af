-- ===== src/RealmService/Announce.antt =====
-- process_proxy_announce, delete_proxy and push of realmd: what each event does to the registry.
use morfeusz.Base.{
  ℕ, ◌≡◌, refl, subst, false, List, Option, none, some, eq_of_some, arith, ◌>>=◌, Option-cases, inl,
  inr,
}
use morfeusz.RealmService.Map.{find, multi_insert-SortedFrom}
use morfeusz.RealmService.{
  Realm, ProxyInfo, Service, Announcement, Scan, known, fresh, duplicate, Event, proxy_announce,
  proxy_shutdowned, unhandled, realm_rows, add_proxy, update_proxy_load, erase_ip, delete_proxy,
  request_proxies_for_realm, request_proxies, update_realms, scan, settle, process_proxy_announce,
  handle,
}
use morfeusz.RealmService.Registry.{
  has_pair, IsRegistry, Distinct-multi_insert, AllKnown-multi_insert, Distinct-erase_ip,
  SortedFrom-erase_ip, AllKnown-erase_ip, Distinct-set_load, SortedFrom-set_load, AllKnown-set_load,
  has_pair-scan, has_pair-find,
}

module _ {L : Type 0} where
  add_proxy-IsRegistry :
      (realm_id : ℕ) (address : List ℕ) (load : L) (s : Service L) (r : Realm)
      → find realm_id s.realm_map ≡ some r
      → has_pair realm_id address s.proxies ≡ false
      → IsRegistry s
      → IsRegistry (add_proxy realm_id address load s)
  unfolding add_proxy
  add_proxy-IsRegistry realm_id address load s r e h v = record {
    sorted = multi_insert-SortedFrom 0 realm_id _ s.proxies (omega arith) v.sorted;
    distinct = Distinct-multi_insert realm_id _ s.proxies h v.distinct;
    all_known = AllKnown-multi_insert s.realm_map realm_id _ s.proxies r e v.all_known;
  }

  delete_proxy-IsRegistry :
      (address : List ℕ) (s s' : Service L)
      → IsRegistry s
      → delete_proxy address s ≡ some s'
      → IsRegistry s'
  unfolding delete_proxy
  delete_proxy-IsRegistry address s s' v e = subst IsRegistry (erased) (record {
    sorted = SortedFrom-erase_ip 0 address s.proxies v.sorted;
    distinct = Distinct-erase_ip address s.proxies v.distinct;
    all_known = AllKnown-erase_ip s.realm_map address s.proxies v.all_known;
  })
    where
      erased : record s { proxies = erase_ip address s.proxies } ≡ s'
      erased = ground arith

  requests-IsRegistry :
      (s : Service L) (asked : List ℕ) → IsRegistry s → IsRegistry (record s { requests = asked })
  requests-IsRegistry s asked v = record {
    sorted = v.sorted;
    distinct = v.distinct;
    all_known = v.all_known;
  }

  settle-IsRegistry :
      (realm_id : ℕ) (address : List ℕ) (load : L) (s s' : Service L) (r : Realm) (found : Scan)
      → find realm_id s.realm_map ≡ some r
      → scan realm_id address s.proxies ≡ found
      → IsRegistry s
      → settle realm_id address load s found ≡ some s'
      → IsRegistry s'
  unfolding settle update_proxy_load request_proxies_for_realm
  settle-IsRegistry realm_id address load s s' r known e c v h =
      subst IsRegistry (eq_of_some h) (record {
        sorted = SortedFrom-set_load 0 address load s.proxies v.sorted;
        distinct = Distinct-set_load address load s.proxies v.distinct;
        all_known = AllKnown-set_load s.realm_map address load s.proxies v.all_known;
      })
  settle-IsRegistry realm_id address load s s' r fresh e c v h = subst IsRegistry (eq_of_some h) (
      add_proxy-IsRegistry realm_id address load s r e (has_pair-scan realm_id address s.proxies c)
        v)
  settle-IsRegistry realm_id address load s s' r (duplicate other) e c v h =
      elim (Option-cases (delete_proxy address s)) [
        | inl gone ↦ cc (rw (gone, ◌>>=◌) at h)
        | inr (t, kept) ↦
            subst IsRegistry (eq_of_some (rw (kept, ◌>>=◌) at h))
              (requests-IsRegistry t _ (delete_proxy-IsRegistry address s t v kept))
      ]

  process_proxy_announce-IsRegistry :
      (a : Announcement L) (s s' : Service L) (o : Option Realm) (p : Option (ProxyInfo L))
      → find a.realm_id s.realm_map ≡ o
      → find a.realm_id s.proxies ≡ p
      → IsRegistry s
      → process_proxy_announce a s ≡ some s'
      → IsRegistry s'
  unfolding process_proxy_announce
  process_proxy_announce-IsRegistry a s s' none p e f v h =
      subst IsRegistry (eq_of_some (rw (e, process_proxy_announce) at h)) v
  process_proxy_announce-IsRegistry a s s' (some r) none e f v h =
      subst IsRegistry (eq_of_some (rw (e, f, process_proxy_announce) at h)) (
        add_proxy-IsRegistry a.realm_id a.address a.load s r e
          (has_pair-find a.realm_id a.address s.proxies f) v)
  process_proxy_announce-IsRegistry a s s' (some r) (some p) e f v h =
      settle-IsRegistry a.realm_id a.address a.load s s' r (scan a.realm_id a.address s.proxies) e
        refl v (rw (e, f, process_proxy_announce) at h)

  -- Every event that realmd survives keeps the proxies in the order of their realms, all of
  -- their realms in the realm list, and no address twice for one realm.
  pub handle-IsRegistry :
      (e : Event L) (s s' : Service L) → IsRegistry s → handle e s ≡ some s' → IsRegistry s'
  unfolding handle update_realms request_proxies
  handle-IsRegistry (proxy_announce a) s s' v h =
      process_proxy_announce-IsRegistry a s s' _ _ refl refl v h
  handle-IsRegistry (proxy_shutdowned address) s s' v h = delete_proxy-IsRegistry address s s' v h
  handle-IsRegistry unhandled s s' v h = subst IsRegistry (eq_of_some h) v
  handle-IsRegistry (realm_rows none) s s' v h = subst IsRegistry (eq_of_some h) v
  handle-IsRegistry (realm_rows (some rows)) s s' v h =
      subst IsRegistry (eq_of_some h) (record { sorted = tt; distinct = tt; all_known = tt })
