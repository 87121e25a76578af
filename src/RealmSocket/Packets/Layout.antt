-- ===== src/RealmSocket/Packets/Layout.antt =====
-- realmd/Realm_Socket.cpp, build_realm_packet: the bytes that a 1.12 client is sent, field by field.
use morfeusz.Base.{
  ℕ, ◌<◌, ◌≡◌, List, [], ◌∷◌, ◌++◌, none, some, ◌>>=◌, ltb, ◌==◌, if◌then◌else◌, bytes_eq, arith,
  length, length-append, length-le_bytes, le_bytes,
}
use morfeusz.ByteBuffer.{append}
use morfeusz.ByteBuffer.Append.{
  filled, Writes, append-Writes, append_buffer-Writes, Writes-bind, Writes-nil,
}
use morfeusz.ByteBuffer.Fields.{
  Field, all_bytes, put_field, put_fields, put_fields-Writes, Writes-if,
}
use morfeusz.RealmService.{Realm, get_proxy_for_realm}
use morfeusz.RealmService.Map.{find}
use morfeusz.RealmSocket.{Socket, Env}
use morfeusz.RealmSocket.Packets.{
  list_size, build_realm, build_realms, build_list_packet, build_realm_packet,
}

module _ {L : Type 0} (env : Env L) where
  -- One realm: icon, color or offline, name, address, population, characters, time zone.
  unfoldable pub realm_fields : List (ℕ × ℕ) → ℕ → Realm → List Field
  realm_fields amounts id rlm =
      let address = get_proxy_for_realm env.lt_load id env.service in
      Field.int 1 rlm.icon
      ∷ Field.int 1 (if bytes_eq address [] then 2 else rlm.color)
      ∷ Field.text rlm.name
      ∷ Field.text address
      ∷ Field.int 4 (env.float32 rlm.population)
      ∷ Field.int 1 (elim (find id amounts) [ none ↦ 0 | some n ↦ n ])
      ∷ Field.int 1 rlm.timezone
      ∷ Field.int 1 0
      ∷ []

  -- The realms of the client's build, in the order of the realm list.
  unfoldable pub realms_bytes : ℕ → List (ℕ × ℕ) → List (ℕ × Realm) → List ℕ
  realms_bytes build amounts [] = []
  realms_bytes build amounts ((id, rlm) ∷ realms) =
      let rest = realms_bytes build amounts realms in
      if rlm.build == build then all_bytes (realm_fields amounts id rlm) ++ rest else rest

  build_realm-Writes :
      (amounts : List (ℕ × ℕ)) (id : ℕ) (rlm : Realm)
      → Writes (build_realm env amounts id rlm) (all_bytes (realm_fields amounts id rlm))
  unfolding build_realm realm_fields put_fields put_field
  build_realm-Writes amounts id rlm = put_fields-Writes env.host (realm_fields amounts id rlm)

  build_realms-Writes :
      (build : ℕ) (amounts : List (ℕ × ℕ)) (realms : List (ℕ × Realm))
      → Writes (build_realms env build amounts realms) (realms_bytes build amounts realms)
  unfolding build_realms realms_bytes
  build_realms-Writes build amounts [] ys r h = Writes-nil ys r h
  build_realms-Writes build amounts ((id, rlm) ∷ realms) ys r h =
      let entry = all_bytes (realm_fields amounts id rlm) in
      let rest = build_realms env build amounts realms in
      let tail = realms_bytes build amounts realms in
      let after : Writes rest tail = λ ys r h. build_realms-Writes build amounts realms ys r h in
      Writes-if (rlm.build == build) (λ pkt. build_realm env amounts id rlm pkt >>= rest) rest
        (entry ++ tail) tail
        (Writes-bind (build_realm env amounts id rlm) rest entry tail
          (build_realm-Writes amounts id rlm) after)
        after ys r h

  -- The body of the packet: four zero bytes, the number of realms in one byte, the realms, and
  -- 0 and 2.
  unfoldable pub realm_list_body : Socket → List ℕ
  realm_list_body c =
      let listed = list_size env c.client_build 0 env.service.realm_map in
      le_bytes 4 0
      ++ le_bytes 1 listed
      ++ (if ltb 0 listed
          then realms_bytes c.client_build c.realm_char_amount env.service.realm_map
          else [])
      ++ le_bytes 1 0
      ++ le_bytes 1 2

  pub build_list_packet_lem :
      (body : List ℕ)
      → length body < 9999990
      → build_list_packet env (filled body 0)
        ≡ some (filled (le_bytes 1 0x10 ++ le_bytes 2 (length body) ++ body) 0)
  unfolding build_list_packet
  build_list_packet_lem body h =
      let head = le_bytes 1 0x10 in
      let len = le_bytes 2 (length body) in
      let e1 : append env.host 1 0x10 (filled [] 0) ≡ some (filled head 0) =
        append-Writes env.host 1 0x10 [] 0 (omega (arith, length-le_bytes 1 0x10)) in
      let e2 : append env.host 2 (length body) (filled head 0) ≡ some (filled (head ++ len) 0) =
        append-Writes env.host 2 (length body) head 0
          (omega (arith, length-le_bytes 1 0x10, length-le_bytes 2 (length body))) in
      rw (e1, e2)
        (append_buffer-Writes (filled body 0) (head ++ len) 0 (
          omega (
            arith,
            length-append head len,
            length-le_bytes 1 0x10,
            length-le_bytes 2 (length body),
          )))

  -- On either kind of machine a 1.12 client is sent the command, the size of the body in two
  -- bytes, and the body with one entry for every realm of its build, in order, as long as the
  -- body stays below 9999990 bytes.
  pub build_realm_packet_lem :
      (c : Socket)
      → length (realm_list_body c) < 9999990
      → build_realm_packet env c
        ≡ some (
            filled
              (le_bytes 1 0x10 ++ le_bytes 2 (length (realm_list_body c)) ++ realm_list_body c)
              0)
  unfolding build_realm_packet realm_list_body
  build_realm_packet_lem c h =
      let listed = list_size env c.client_build 0 env.service.realm_map in
      let realms = realms_bytes c.client_build c.realm_char_amount env.service.realm_map in
      let entries = if ltb 0 listed then realms else [] in
      let b1 = le_bytes 4 0 in
      let b2 = b1 ++ le_bytes 1 listed in
      let b3 = b2 ++ entries in
      let b4 = b3 ++ le_bytes 1 0 in
      let b5 = b4 ++ le_bytes 1 2 in
      let s2 = length-append b1 (le_bytes 1 listed) in
      let s3 = length-append b2 entries in
      let s4 = length-append b3 (le_bytes 1 0) in
      let s5 = length-append b4 (le_bytes 1 2) in
      let e1 : append env.host 4 0 (filled [] 0) ≡ some (filled b1 0) =
        append-Writes env.host 4 0 [] 0 (omega (arith, length-le_bytes 4 0)) in
      let e2 : append env.host 1 listed (filled b1 0) ≡ some (filled b2 0) =
        append-Writes env.host 1 listed b1 0 (omega (arith, s2, s3, s4, s5)) in
      let e3 : (if ltb 0 listed
            then build_realms env c.client_build c.realm_char_amount env.service.realm_map
                (filled b2 0)
            else some (filled b2 0))
          ≡ some (filled b3 0) =
        Writes-if (ltb 0 listed)
          (build_realms env c.client_build c.realm_char_amount env.service.realm_map) (λ b. some b)
          realms [] (build_realms-Writes c.client_build c.realm_char_amount env.service.realm_map)
          Writes-nil b2 0 (omega (arith, s3, s4, s5)) in
      let e4 : append env.host 1 0 (filled b3 0) ≡ some (filled b4 0) =
        append-Writes env.host 1 0 b3 0 (omega (arith, s4, s5)) in
      let e5 : append env.host 1 2 (filled b4 0) ≡ some (filled b5 0) =
        append-Writes env.host 1 2 b4 0 (omega (arith, s5)) in
      rw (e1, e2, e3, e4, e5) (build_list_packet_lem b5 h)
