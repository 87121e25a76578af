-- ===== src/ProxySession.antt =====
-- proxyd/tbc/Proxy_Handlers.cpp: a client's session with the proxy. A database's answer comes as a call
-- of account_retrieved or characters_retrieved. `none` is a failed ASSERT or an overrun buffer.
pub mod Admission
pub mod Keys
pub mod CharacterList
pub mod Creation
use morfeusz.Base.{
  ℕ, ◌+◌, ◌-◌, ◌*◌, ◌/◌, ◌%◌, ◌^◌, Bool, true, false, List, [], ◌∷◌, ◌++◌, reverse, Option, none,
  some, ◌>>=◌, ltb, leb, u8, bytes_eq, if◌then◌else◌, take, drop, length, replicate,
}
use morfeusz.Endian.{Host, store}
use morfeusz.ByteBuffer.{ByteBuffer, append, append_string, read, read_bytes, read_string}
use morfeusz.Packet.{new_server_pkt, check_size}
use morfeusz.TbcCrypto.{TbcCrypto, set_key}
use morfeusz.Srp.{OpenSsl, fill, srp_N, srp_g}
use morfeusz.Database.Worker.{Request}
use morfeusz.Database.Sql.{c_str}
use morfeusz.ProxyDatabase.{Account, Character, get_account, get_chars}
use morfeusz.ProxySocket.{ProxySocket, send}

-- What the reactor sees of the socket, and what the handlers keep. `enqueued` are the requests that
-- were made, `died` that die was called.
pub record Session : Type 0 where
  pub socket : ProxySocket
  pub acct : Account
  pub login : List ℕ
  pub client_seed : ℕ
  pub client_digest : List ℕ
  pub seed : ℕ
  pub characters : List Character
  pub enqueued : List Request
  pub died : Bool

-- With the packet as the reads leave it; `future` is the request's.
pub handle_cmsg_auth_session : Host → ℕ → ByteBuffer → Session → Option (ByteBuffer × Session)
handle_cmsg_auth_session host future in_packet c = do
  (long_enough, in_packet) ← check_size host (4 + 4 + 1 + 4 + 20) in_packet
  (if long_enough
      then (do
        (tmp, in_packet) ← read host 4 in_packet
        (tmp, in_packet) ← read host 4 in_packet
        (login, in_packet) ← read_string host in_packet
        (client_seed, in_packet) ← read host 4 in_packet
        (client_digest, in_packet) ← read_bytes 20 in_packet
        op ← get_account future login
        some (
          in_packet,
          record c {
            login = login;
            client_seed = client_seed;
            client_digest = client_digest;
            enqueued = c.enqueued ++ Request.request op ∷ [];
          },
        ))
      else some (in_packet, c))

-- The exponent's hash and the verifier that account_retrieved computes anew: pass_hash is a buffer of
-- twenty bytes.
unfoldable pub verifier : OpenSsl → Account → Option ℕ
unfolding fill
verifier o acct = do
  pass_hash ← fill (replicate 20 0) (o.bn2bin (o.hex2bn (c_str acct.sha_pass_hash)))
  let s_bin = reverse (o.bn2bin (o.hex2bn (c_str acct.s)))
  some (o.mod_exp srp_g (o.bin2bn (reverse (o.sha1 (s_bin ++ pass_hash)))) srp_N)

-- BN_bn2bin(K, k_char) and std::reverse(k_char, k_char + 40), in a buffer of BN_num_bytes(K) bytes.
unfoldable pub key_bytes : OpenSsl → ℕ → Option (List ℕ)
key_bytes o k =
    let bin = o.bn2bin k in
    if leb 40 (length bin) then some (reverse (take 40 bin) ++ drop 40 bin) else none

-- What the client's digest is compared with.
unfoldable pub check_digest : Host → OpenSsl → Session → List ℕ → List ℕ
check_digest host o c k_char =
    o.sha1
      (c.login ++ store host 4 0 ++ store host 4 c.client_seed ++ store host 4 c.seed ++ k_char)

die : Session → Session
die c = record c { died = true }

-- SMSG_AUTH_RESPONSE with AUTH_OK.
unfoldable pub auth_ok : Host → ℕ → Option ByteBuffer
auth_ok host expansion = do
  pkt ← new_server_pkt host 0x1EE (1 + 4 + 1 + 4 + 1)
  pkt ← append host 1 0x0C pkt
  pkt ← append host 4 0 pkt
  pkt ← append host 1 0 pkt
  pkt ← append host 4 0 pkt
  append host 1 expansion pkt

unfoldable pub auth_unknown : Host → Option ByteBuffer
auth_unknown host = do pkt ← new_server_pkt host 0x1EE 1; append host 1 0x15 pkt

module _ (host : Host) (o : OpenSsl) (hmac_sha1 : List ℕ → List ℕ → List ℕ) where
  unfoldable pub account_retrieved : Bool → Session → Option Session
  unfolding auth_unknown die verifier key_bytes check_digest auth_ok set_key
  account_retrieved false c = do
    pkt ← auth_unknown host
    some (die (record c { socket = send pkt c.socket }))
  account_retrieved true c = do
    v ← verifier o c.acct
    (if bytes_eq (o.bn2hex v) (c_str c.acct.v)
        then (do
          let k = o.hex2bn (c_str c.acct.sessionkey)
          k_char ← key_bytes o k
          (if bytes_eq (check_digest host o c k_char) c.client_digest
              then (do
                pkt ← auth_ok host c.acct.expansion
                let crypto = set_key hmac_sha1 o.bn2bin k c.socket.crypto
                some (record c { socket = send pkt (record c.socket { crypto = crypto }) }))
              else some (die c)))
        else some (die c))

unfoldable pub handle_cmsg_char_enum : Host → ℕ → Session → Option Session
handle_cmsg_char_enum host future c = do
  op ← get_chars host future c.acct.id
  some (record c { enqueued = c.enqueued ++ Request.request op ∷ [] })

-- uint32(0), uint8(0), uint32(0): one place of the equipment.
unfoldable pub put_item : Host → ByteBuffer → Option ByteBuffer
put_item host pkt = do pkt ← append host 4 0 pkt; pkt ← append host 1 0 pkt; append host 4 0 pkt

unfoldable pub put_items : Host → ℕ → ByteBuffer → Option ByteBuffer
unfolding put_item
put_items host ℕ.zero pkt = some pkt
put_items host (ℕ.suc n) pkt = put_item host pkt >>= put_items host n

unfoldable pub put_character : Host → Character → ByteBuffer → Option ByteBuffer
unfolding put_items
put_character host ch pkt = do
  pkt ← append host 8 ch.guid pkt
  pkt ← append_string host ch.name pkt
  pkt ← append host 1 ch.race pkt
  pkt ← append host 1 ch.pclass pkt
  pkt ← append host 1 ch.gender pkt
  pkt ← append host 1 (u8 ch.bytes) pkt
  pkt ← append host 1 (u8 (ch.bytes / 2 ^ 8)) pkt
  pkt ← append host 1 (u8 (ch.bytes / 2 ^ 16)) pkt
  pkt ← append host 1 (u8 (ch.bytes / 2 ^ 24)) pkt
  pkt ← append host 1 (u8 ch.bytes2) pkt
  pkt ← append host 1 ch.level pkt
  pkt ← append host 4 ch.zone pkt
  pkt ← append host 4 ch.map pkt
  pkt ← append host 4 ch.x pkt
  pkt ← append host 4 ch.y pkt
  pkt ← append host 4 ch.z pkt
  pkt ← append host 4 0 pkt
  pkt ← append host 4 0 pkt
  pkt ← append host 1 1 pkt
  pkt ← append host 4 0 pkt
  pkt ← append host 4 0 pkt
  pkt ← append host 4 0 pkt
  pkt ← put_items host 19 pkt
  put_item host pkt

unfoldable pub put_characters : Host → List Character → ByteBuffer → Option ByteBuffer
unfolding put_character
put_characters host [] pkt = some pkt
put_characters host (ch ∷ chs) pkt = put_character host ch pkt >>= put_characters host chs

unfoldable pub characters_retrieved : Host → Bool → Session → Option Session
unfolding put_characters
characters_retrieved host state c = do
  pkt ← new_server_pkt host 0x3B 100
  pkt ←
      (if state
        then (append host 1 (u8 (length c.characters)) pkt >>= put_characters host c.characters)
        else append host 1 0 pkt)
  some (record c { socket = send pkt c.socket })
