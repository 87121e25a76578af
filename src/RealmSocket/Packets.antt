-- ===== src/RealmSocket/Packets.antt =====
-- realmd/Realm_Socket.cpp: the packets that the handlers build. `none` is a failed ASSERT of the
-- buffer or a write past an array.
pub mod Layout
pub mod Expansion
use morfeusz.Base.{
  ℕ, ◌+◌, Bool, ◌||◌, List, [], ◌∷◌, reverse, Option, none, some, ◌>>=◌, ltb, ◌==◌, if◌then◌else◌,
  bytes_eq, take, u16,
}
use morfeusz.Endian.{Host}
use morfeusz.ByteBuffer.{
  ByteBuffer, empty, size, append_bytes, append, append_string, append_buffer,
}
use morfeusz.Srp.{fill, reversed_buffer, srp_N}
use morfeusz.RealmService.{Realm, get_proxy_for_realm}
use morfeusz.RealmService.Map.{find, map_set}
use morfeusz.RealmSocket.{Account, Socket, Env}

-- isSupportedClientBuild, and the two cases of the switches over client_build.
pub is_expansion_build : ℕ → Bool
is_expansion_build build = build == 8606 || (build == 9947 || build == 10505)

pub is_supported_client_build : ℕ → Bool
unfolding is_expansion_build
is_supported_client_build build = build == 5875 || is_expansion_build build

-- The three bytes of an answer to a logon challenge.
unfoldable pub build_challenge_result : Host → ℕ → Option ByteBuffer
build_challenge_result host result = do
  pkt ← append host 1 0 empty
  pkt ← append host 1 0 pkt
  append host 1 result pkt

pub build_logon_proof_packet : Host → List ℕ → Option ByteBuffer
build_logon_proof_packet host hamk_fin = do
  data' ← append host 1 1 empty
  data' ← append host 1 0 data'
  data' ← append_bytes hamk_fin data'
  append host 4 0 data'

pub build_expansion_logon_proof_packet : Host → List ℕ → Option ByteBuffer
build_expansion_logon_proof_packet host hamk_fin = do
  data' ← append host 1 1 empty
  data' ← append host 1 0 data'
  data' ← append_bytes hamk_fin data'
  data' ← append host 4 0x00800000 data'
  data' ← append host 4 0 data'
  append host 2 0 data'

-- The reply to a reconnect challenge, with the 16 bytes of the new proof.
pub build_reconnect_challenge : Host → List ℕ → Option ByteBuffer
build_reconnect_challenge host rpr = do
  pkt ← append host 1 2 empty
  pkt ← append host 1 0 pkt
  pkt ← append_bytes rpr pkt
  pkt ← append host 8 0 pkt
  append host 8 0 pkt

unfoldable pub build_reconnect_ok : Host → Option ByteBuffer
build_reconnect_ok host = do
  pkt ← append host 1 3 empty
  pkt ← append host 1 0 pkt
  append host 2 0 pkt

module _ {L : Type 0} (env : Env L) where
  -- listSize: the realms of the client's build, counted in an uint16.
  unfoldable pub list_size : ℕ → ℕ → List (ℕ × Realm) → ℕ
  list_size build n [] = n
  list_size build n ((id, rlm) ∷ realms) =
      list_size build (if rlm.build == build then u16 (n + 1) else n) realms

  -- One realm of build_realm_packet.
  pub build_realm : List (ℕ × ℕ) → ℕ → Realm → ByteBuffer → Option ByteBuffer
  build_realm amounts id rlm pkt =
      let address = get_proxy_for_realm env.lt_load id env.service in
      do
        pkt ← append env.host 1 rlm.icon pkt
        pkt ← append env.host 1 (if bytes_eq address [] then 2 else rlm.color) pkt
        pkt ← append_string env.host rlm.name pkt
        pkt ← append_string env.host address pkt
        pkt ← append env.host 4 (env.float32 rlm.population) pkt
        pkt ← append env.host 1 (elim (find id amounts) [ none ↦ 0 | some n ↦ n ]) pkt
        pkt ← append env.host 1 rlm.timezone pkt
        append env.host 1 0 pkt

  pub build_realms : ℕ → List (ℕ × ℕ) → List (ℕ × Realm) → ByteBuffer → Option ByteBuffer
  build_realms build amounts [] pkt = some pkt
  build_realms build amounts ((id, rlm) ∷ realms) pkt =
      let rest = build_realms build amounts realms in
      if rlm.build == build then build_realm amounts id rlm pkt >>= rest else rest pkt

  -- The REALM_LIST command, the size and the list.
  pub build_list_packet : ByteBuffer → Option ByteBuffer
  build_list_packet pkt = do
    data' ← append env.host 1 0x10 empty
    data' ← append env.host 2 (size pkt) data'
    append_buffer pkt data'

  pub build_realm_packet : Socket → Option ByteBuffer
  build_realm_packet c =
      let listed = list_size c.client_build 0 env.service.realm_map in
      do
        pkt ← append env.host 4 0 empty
        pkt ← append env.host 1 listed pkt
        pkt ←
            (if ltb 0 listed
              then build_realms c.client_build c.realm_char_amount env.service.realm_map pkt
              else some pkt)
        pkt ← append env.host 1 0 pkt
        pkt ← append env.host 1 2 pkt
        build_list_packet pkt

  -- map's operator[]: a missing key is inserted, with 0.
  pub char_amount : ℕ → List (ℕ × ℕ) → ℕ × List (ℕ × ℕ)
  char_amount id amounts = elim (find id amounts) [
    | none ↦ (0, map_set id 0 amounts)
    | some n ↦ (n, amounts)
  ]

  pub build_expansion_realm : Account → ℕ → ℕ → Realm → ByteBuffer → Option ByteBuffer
  build_expansion_realm acct amount id rlm pkt =
      let address = get_proxy_for_realm env.lt_load id env.service in
      do
        pkt ← append env.host 1 rlm.icon pkt
        pkt ← append env.host 1 (if ltb acct.gmlevel rlm.allowed_security_level then 1 else 0) pkt
        pkt ← append env.host 1 (if bytes_eq address [] then 2 else rlm.color) pkt
        pkt ← append_string env.host rlm.name pkt
        pkt ← append_string env.host address pkt
        pkt ← append env.host 4 (env.float32 rlm.population) pkt
        pkt ← append env.host 1 amount pkt
        pkt ← append env.host 1 rlm.timezone pkt
        append env.host 1 0 pkt

  pub build_expansion_realms :
      Account
      → ℕ
      → List (ℕ × Realm)
      → ByteBuffer × List (ℕ × ℕ)
      → Option (ByteBuffer × List (ℕ × ℕ))
  build_expansion_realms acct build [] (pkt, amounts) = some (pkt, amounts)
  build_expansion_realms acct build ((id, rlm) ∷ realms) (pkt, amounts) =
      let rest = build_expansion_realms acct build realms in
      if rlm.build == build
      then (let (amount, amounts') = char_amount id amounts in
          build_expansion_realm acct amount id rlm pkt >>= λ pkt'. rest (pkt', amounts'))
      else rest (pkt, amounts)

  -- The packet, and the map of character amounts as the listing leaves it.
  pub list_expansion : Socket → Option (ByteBuffer × List (ℕ × ℕ))
  list_expansion c =
      let listed = list_size c.client_build 0 env.service.realm_map in
      do
        pkt ← append env.host 4 0 empty
        pkt ← append env.host 2 listed pkt
        (pkt, amounts) ←
            (if ltb 0 listed
              then build_expansion_realms c.acct c.client_build env.service.realm_map
                  (pkt, c.realm_char_amount)
              else some (pkt, c.realm_char_amount))
        pkt ← append env.host 1 0x10 pkt
        pkt ← append env.host 1 0 pkt
        data' ← build_list_packet pkt
        some (data', amounts)

  unfoldable pub build_expansion_realm_packet : Socket → Option (ByteBuffer × Socket)
  build_expansion_realm_packet c = do
    (data', amounts) ← list_expansion c
    some (data', record c { realm_char_amount = amounts })

  -- ACCOUNT_EXISTS: B, g, N, s and 16 random bytes, through the one array `tmp`.
  pub build_challenge_packet : Socket → Option ByteBuffer
  build_challenge_packet c = do
    buf ← append env.host 1 0 empty
    buf ← append env.host 1 0 buf
    buf ← append env.host 1 0 buf
    tmp ← reversed_buffer env.openssl 32 c.B
    buf ← append_bytes tmp buf
    buf ← append env.host 1 1 buf
    buf ← append env.host 1 7 buf
    buf ← append env.host 1 32 buf
    tmp ← fill tmp (env.openssl.bn2bin srp_N)
    let tmp = reverse tmp
    buf ← append_bytes tmp buf
    tmp ← fill tmp (env.openssl.bn2bin c.s)
    let tmp = reverse tmp
    buf ← append_bytes tmp buf
    tmp ← fill tmp (env.openssl.bn2bin env.rand_unk)
    buf ← append_bytes (take 16 tmp) buf
    append env.host 1 0 buf
