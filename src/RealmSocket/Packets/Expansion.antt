-- ===== src/RealmSocket/Packets/Expansion.antt =====
-- realmd/Realm_Socket.cpp, build_expansion_realm_packet: the bytes that a client of an expansion is
-- sent, and what the listing leaves of the amounts of characters.
use morfeusz.Base.{
  ℕ, ◌+◌, ◌<◌, ◌≡◌, refl, sym, ap, ◌∙◌, inl, inr, Bool-cases, Option-cases, Bool, true, Option,
  subst, List, [], ◌∷◌, ◌++◌, append_assoc, append-nil, none, some, ltb, ◌==◌, ==_iff,
  if◌then◌else◌, bytes_eq, arith, length, length-append, length-le_bytes, le_bytes,
}
use morfeusz.ByteBuffer.{append}
use morfeusz.ByteBuffer.Append.{filled, Writes, append-Writes}
use morfeusz.ByteBuffer.Fields.{Field, all_bytes, put_field, put_fields, put_fields-Writes}
use morfeusz.RealmService.{Realm, get_proxy_for_realm}
use morfeusz.RealmService.Map.{find, map_set, find-map_set}
use morfeusz.RealmSocket.{Account, Socket, Env}
use morfeusz.RealmSocket.Packets.{
  list_size, char_amount, build_expansion_realm, build_expansion_realms, list_expansion,
  build_expansion_realm_packet,
}
use morfeusz.RealmSocket.Packets.Layout.{build_list_packet_lem}

abbrev or_zero : Option ℕ → ℕ
or_zero none = 0
or_zero (some n) = n

-- A missing amount is 0.
abbrev pub amount_of : List (ℕ × ℕ) → ℕ → ℕ
amount_of amounts id = or_zero (find id amounts)

-- Maps that give the same amounts.
abbrev pub Agree : List (ℕ × ℕ) → List (ℕ × ℕ) → Type 0
Agree a b = (id : ℕ) → amount_of a id ≡ amount_of b id

set_zero-Agree :
    (id : ℕ) (amounts : List (ℕ × ℕ))
    → find id amounts ≡ none
    → Agree (map_set id 0 amounts) amounts
set_zero-Agree id amounts e j =
    ap or_zero (find-map_set id j 0 amounts) ∙ elim (Bool-cases (id == j)) [
      | inl f ↦
          (let same : find j amounts ≡ none =
              ap (λ k. find k amounts) (sym ((==_iff id j).0 f)) ∙ e in
            rw (f, same) refl)
      | inr f ↦ rw f refl
    ]

module _ {L : Type 0} (env : Env L) where
  -- operator[] gives the amount, and what it inserts changes none.
  char_amount_lem :
      (id : ℕ) (amounts : List (ℕ × ℕ))
      → ((char_amount env id amounts).0 ≡ amount_of amounts id)
        × Agree (char_amount env id amounts).1 amounts
  unfolding char_amount
  char_amount_lem id amounts = elim (Option-cases (find id amounts)) [
    | inr (n, e) ↦ rw (char_amount, e) (refl, λ j. refl)
    | inl e ↦ rw (char_amount, e) (refl, set_zero-Agree id amounts e)
  ]

  -- One realm: icon, locked or not, color or offline, name, address, population, characters, time zone.
  unfoldable pub expansion_fields : Account → ℕ → ℕ → Realm → List Field
  expansion_fields acct amount id rlm =
      let address = get_proxy_for_realm env.lt_load id env.service in
      Field.int 1 rlm.icon
      ∷ Field.int 1 (if ltb acct.gmlevel rlm.allowed_security_level then 1 else 0)
      ∷ Field.int 1 (if bytes_eq address [] then 2 else rlm.color)
      ∷ Field.text rlm.name
      ∷ Field.text address
      ∷ Field.int 4 (env.float32 rlm.population)
      ∷ Field.int 1 amount
      ∷ Field.int 1 rlm.timezone
      ∷ Field.int 1 0
      ∷ []

  -- The realms of the client's build, in the order of the realm list.
  unfoldable pub expansion_bytes : Account → ℕ → (ℕ → ℕ) → List (ℕ × Realm) → List ℕ
  expansion_bytes acct build amount [] = []
  expansion_bytes acct build amount ((id, rlm) ∷ realms) =
      let rest = expansion_bytes acct build amount realms in
      if rlm.build == build
      then all_bytes (expansion_fields acct (amount id) id rlm) ++ rest
      else rest

  build_expansion_realm-Writes :
      (acct : Account) (amount id : ℕ) (rlm : Realm)
      → Writes
          (build_expansion_realm env acct amount id rlm)
          (all_bytes (expansion_fields acct amount id rlm))
  unfolding build_expansion_realm expansion_fields put_fields put_field
  build_expansion_realm-Writes acct amount id rlm =
      put_fields-Writes env.host (expansion_fields acct amount id rlm)

  next_realm :
      (acct : Account) (build id : ℕ) (rlm : Realm) (realms : List (ℕ × Realm))
      (amounts : List (ℕ × ℕ)) (ys entry tail : List ℕ) (after : List (ℕ × ℕ))
      → (rlm.build == build) ≡ true
      → build_expansion_realm env acct (char_amount env id amounts).0 id rlm (filled ys 0)
        ≡ some (filled (ys ++ entry) 0)
      → build_expansion_realms env acct build realms
          (filled (ys ++ entry) 0, (char_amount env id amounts).1)
        ≡ some (filled ((ys ++ entry) ++ tail) 0, after)
      → build_expansion_realms env acct build ((id, rlm) ∷ realms) (filled ys 0, amounts)
        ≡ some (filled (ys ++ (entry ++ tail)) 0, after)
  unfolding build_expansion_realms
  next_realm acct build id rlm realms amounts ys entry tail after e written rest =
      rw (e, written) (rest ∙ ap (λ l. some (filled l 0, after)) (append_assoc ys entry tail))

  build_expansion_realms_lem :
      (acct : Account) (build : ℕ) (realms : List (ℕ × Realm)) (start amounts : List (ℕ × ℕ))
      (ys : List ℕ)
      → Agree amounts start
      → length ys + length (expansion_bytes acct build (amount_of start) realms) < 10000000
      → (after : List (ℕ × ℕ)) × Agree after start
        × (build_expansion_realms env acct build realms (filled ys 0, amounts)
            ≡ some (filled (ys ++ expansion_bytes acct build (amount_of start) realms) 0, after))
  unfolding build_expansion_realms expansion_bytes
  build_expansion_realms_lem acct build [] start amounts ys same h =
      (amounts, same, ap (λ l. some (filled l 0, amounts)) (sym (append-nil ys)))
  build_expansion_realms_lem acct build ((id, rlm) ∷ realms) start amounts ys same h =
      let tail = expansion_bytes acct build (amount_of start) realms in
      let entry = all_bytes (expansion_fields acct (amount_of start id) id rlm) in
      let room_if : Bool → Type 0 =
        λ b. length ys + length (if b then entry ++ tail else tail) < 10000000 in
      elim (Bool-cases (rlm.build == build)) [
        | inr e ↦
            rw e (
              build_expansion_realms_lem acct build realms start amounts ys same
                (subst room_if e h))
        | inl e ↦
            let counted = char_amount_lem id amounts in
            let amount = (char_amount env id amounts).0 in
            let known : amount ≡ amount_of start id = counted.0 ∙ same id in
            let room : length ys + length (entry ++ tail) < 10000000 = subst room_if e h in
            let (after, kept, rest) =
              build_expansion_realms_lem acct build realms start (char_amount env id amounts).1
                (ys ++ entry) (λ j. counted.1 j ∙ same j)
                (omega (arith, room, length-append ys entry, length-append entry tail)) in
            let written =
              build_expansion_realm-Writes acct (amount_of start id) id rlm ys 0
                (omega (arith, room, length-append entry tail)) in
            let listed : expansion_bytes acct build (amount_of start) ((id, rlm) ∷ realms)
                ≡ entry ++ tail =
              rw (expansion_bytes, e) refl in
            (
              after,
              kept,
              next_realm acct build id rlm realms amounts ys entry tail after e (rw known written)
                    rest
                  ∙ ap (λ l. some (filled (ys ++ l) 0, after)) (sym listed),
            )
      ]

  -- The entries, if there is a realm of the build.
  entries_lem :
      (c : Socket) (ys : List ℕ)
      → (let listed = list_size env c.client_build 0 env.service.realm_map in
          let realms =
            expansion_bytes c.acct c.client_build
              (amount_of c.realm_char_amount)
              env.service.realm_map in
          length ys + length (if ltb 0 listed then realms else []) < 10000000
          → (after : List (ℕ × ℕ)) × Agree after c.realm_char_amount
            × ((if ltb 0 listed
                  then build_expansion_realms env c.acct c.client_build env.service.realm_map
                      (filled ys 0, c.realm_char_amount)
                  else some (filled ys 0, c.realm_char_amount))
                ≡ some (filled (ys ++ (if ltb 0 listed then realms else [])) 0, after)))
  entries_lem c ys =
      elim (Bool-cases (ltb 0 (list_size env c.client_build 0 env.service.realm_map))) [
        | inl e ↦ rw e (λ h.
            build_expansion_realms_lem c.acct c.client_build env.service.realm_map
              c.realm_char_amount c.realm_char_amount ys (λ j. refl) h)
        | inr e ↦ rw e (λ h. (
          c.realm_char_amount,
          (λ j. refl),
          ap (λ l. some (filled l 0, c.realm_char_amount)) (sym (append-nil ys)),
        ))
      ]

  -- The body of the packet: four zero bytes, the number of realms in two bytes, the realms, and
  -- 16 and 0.
  unfoldable pub expansion_list_body : Socket → List ℕ
  expansion_list_body c =
      let listed = list_size env c.client_build 0 env.service.realm_map in
      le_bytes 4 0
      ++ le_bytes 2 listed
      ++ (if ltb 0 listed
          then expansion_bytes c.acct c.client_build (amount_of c.realm_char_amount)
              env.service.realm_map
          else [])
      ++ le_bytes 1 0x10
      ++ le_bytes 1 0

  -- On either kind of machine a client of an expansion is sent the command, the size of the body in
  -- two bytes, and the body with one entry for every realm of its build, in order, as long as the
  -- body stays below 9999990 bytes; and the listing changes no amount of characters.
  pub build_expansion_realm_packet_lem :
      (c : Socket)
      → length (expansion_list_body c) < 9999990
      → (after : List (ℕ × ℕ)) × Agree after c.realm_char_amount
        × (build_expansion_realm_packet env c
            ≡ some (
              filled
                  (le_bytes 1 0x10
                    ++ le_bytes 2 (length (expansion_list_body c))
                    ++ expansion_list_body c)
                  0,
              record c { realm_char_amount = after },
            ))
  unfolding build_expansion_realm_packet list_expansion expansion_list_body
  build_expansion_realm_packet_lem c h =
      let listed = list_size env c.client_build 0 env.service.realm_map in
      let realms =
        expansion_bytes c.acct c.client_build (amount_of c.realm_char_amount)
          env.service.realm_map in
      let entries = if ltb 0 listed then realms else [] in
      let b1 = le_bytes 4 0 in
      let b2 = b1 ++ le_bytes 2 listed in
      let b3 = b2 ++ entries in
      let b4 = b3 ++ le_bytes 1 0x10 in
      let b5 = b4 ++ le_bytes 1 0 in
      let s2 = length-append b1 (le_bytes 2 listed) in
      let s3 = length-append b2 entries in
      let s4 = length-append b3 (le_bytes 1 0x10) in
      let s5 = length-append b4 (le_bytes 1 0) in
      let e1 : append env.host 4 0 (filled [] 0) ≡ some (filled b1 0) =
        append-Writes env.host 4 0 [] 0 (omega (arith, length-le_bytes 4 0)) in
      let e2 : append env.host 2 listed (filled b1 0) ≡ some (filled b2 0) =
        append-Writes env.host 2 listed b1 0 (omega (arith, s2, s3, s4, s5)) in
      let (after, kept, e3) = entries_lem c b2 (omega (arith, s3, s4, s5)) in
      let e4 : append env.host 1 0x10 (filled b3 0) ≡ some (filled b4 0) =
        append-Writes env.host 1 0x10 b3 0 (omega (arith, s4, s5)) in
      let e5 : append env.host 1 0 (filled b4 0) ≡ some (filled b5 0) =
        append-Writes env.host 1 0 b4 0 (omega (arith, s5)) in
      (after, kept, rw (e1, e2, e3, e4, e5, build_list_packet_lem env b5 h) refl)
