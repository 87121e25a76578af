-- ===== src/RealmService/Selection.antt =====
-- get_proxy_for_realm of realmd/Realm_Service.cpp picks a proxy with the lowest load.
use morfeusz.Base.{
  ℕ, ◌≡◌, refl, sym, ap, ◌⊎◌, inl, inr, Bool, true, false, List, [], ◌∷◌, ◌++◌, if◌then◌else◌,
}
use morfeusz.RealmService.{
  ProxyInfo, Service, proxies_for_realm, lowest_load, select, get_proxy_for_realm,
}

-- `<` on the loads, as on floats that are not NaN: the ordering of what is not lower.
pub record IsLoadOrder (L : Type 0) (lt_load : L → L → Bool) : Type 0 where
  pub irrefl : (a : L) → lt_load a a ≡ false
  pub not_lt_trans : (a b c : L) → lt_load a b ≡ false → lt_load b c ≡ false → lt_load a c ≡ false
  pub lt_asymm : (a b : L) → lt_load a b ≡ true → lt_load b a ≡ false

module _ {L : Type 0} (lt_load : L → L → Bool) (order : IsLoadOrder L lt_load) where
  -- No proxy of the list has a load below `a`.
  abbrev pub NoneLower : L → List (ProxyInfo L) → Type 0
  NoneLower a [] = Unit {0}
  NoneLower a (p ∷ ps) = (lt_load p.load a ≡ false) × NoneLower a ps

  abbrev pub OneOf : ProxyInfo L → List (ProxyInfo L) → Type 0
  OneOf p ps =
      (before : List (ProxyInfo L)) × (after : List (ProxyInfo L)) × (ps ≡ before ++ p ∷ after)

  OneOf-head :
      {best : ProxyInfo L} (q : ProxyInfo L) (ps : List (ProxyInfo L))
      → best ≡ q
      → OneOf best (q ∷ ps)
  OneOf-head q ps e = ([], ps, ap (λ b. b ∷ ps) (sym e))

  OneOf-tail :
      {best : ProxyInfo L} (q : ProxyInfo L) (ps : List (ProxyInfo L))
      → OneOf best ps
      → OneOf best (q ∷ ps)
  OneOf-tail q ps (before, after, e) = (q ∷ before, after, ap (◌∷◌ q) e)

  -- What the walk from `p` through `ps` has found in `best`.
  abbrev IsBest : ProxyInfo L → List (ProxyInfo L) → ProxyInfo L → Type 0
  IsBest p ps best =
      ((best ≡ p) ⊎ OneOf best ps) × (lt_load p.load best.load ≡ false) × NoneLower best.load ps

  IsBest-step :
      (p q : ProxyInfo L) (ps : List (ProxyInfo L)) (b : Bool)
      → lt_load q.load p.load ≡ b
      → IsBest q ps (lowest_load lt_load q ps)
      → IsBest p ps (lowest_load lt_load p ps)
      → IsBest p (q ∷ ps) (lowest_load lt_load (if b then q else p) ps)
  IsBest-step p q ps true lower (which, below, rest) _ = (
    inr (elim which [ inl e ↦ OneOf-head q ps e | inr o ↦ OneOf-tail q ps o ]),
    order.not_lt_trans _ _ _ (order.lt_asymm _ _ lower) below,
    (below, rest),
  )
  IsBest-step p q ps false higher _ (which, below, rest) = (
    elim which [ inl e ↦ inl e | inr o ↦ inr (OneOf-tail q ps o) ],
    below,
    (order.not_lt_trans _ _ _ higher below, rest),
  )

  lowest_load_lem :
      (p : ProxyInfo L) (ps : List (ProxyInfo L)) → IsBest p ps (lowest_load lt_load p ps)
  unfolding lowest_load
  lowest_load_lem p [] = (inl refl, order.irrefl p.load, tt)
  lowest_load_lem p (q ∷ ps) =
      IsBest-step p q ps (lt_load q.load p.load) refl (lowest_load_lem q ps) (lowest_load_lem p ps)

  -- The address that is given out is that of a proxy of the realm, and no proxy of the realm has
  -- a lower load; it is empty where the realm has no proxy.
  pub get_proxy_for_realm_lem :
      (id : ℕ) (s : Service L)
      → let ps = proxies_for_realm id s.proxies in
        ((ps ≡ []) × (get_proxy_for_realm lt_load id s ≡ []))
        ⊎ ((best : ProxyInfo L) × OneOf best ps
            × (get_proxy_for_realm lt_load id s ≡ best.ip)
            × NoneLower best.load ps)
  unfolding get_proxy_for_realm select
  get_proxy_for_realm_lem id s = cases (proxies_for_realm id s.proxies)
    where
      cases :
          (ps : List (ProxyInfo L))
          → ((ps ≡ []) × (select lt_load ps ≡ []))
            ⊎ ((best : ProxyInfo L) × OneOf best ps
                × (select lt_load ps ≡ best.ip)
                × NoneLower best.load ps)
      cases [] = inl (refl, refl)
      cases (p ∷ ps) =
          let (which, _, rest) = lowest_load_lem p (p ∷ ps) in
          inr (
            lowest_load lt_load p (p ∷ ps),
            elim which [ inl e ↦ OneOf-head p ps e | inr o ↦ o ],
            refl,
            rest,
          )
