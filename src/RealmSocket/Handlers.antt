-- ===== src/RealmSocket/Handlers.antt =====
-- realmd/Realm_Socket.cpp: the handlers of the client's commands and the callbacks of the
-- database. `none` is an abort or a write past an array. The fields of the logon challenge that
-- are only byte-swapped in place, and read no more, are left out.
pub mod States
pub mod Commands
pub mod Attempts
pub mod Failures
use morfeusz.Base.{
  ℕ, ◌+◌, Bool, true, false, not, ◌&&◌, List, [], ◌∷◌, ◌++◌, Option, none, some, ◌>>=◌, ltb, ◌==◌,
  if◌then◌else◌, bytes_eq, length, get_or, take, drop, u8,
}
use morfeusz.Endian.{load}
use morfeusz.ByteBuffer.{ByteBuffer}
use morfeusz.Srp.{
  fill, challenge, verifier, expected_proof, server_proof, srp_N, srp_g, Login, ProofPacket, Proof,
}
use morfeusz.RealmSocket.{
  AccountState, ConnectionState, Call, Socket, ℤ, Env, is_state, call, send, die,
}
use AccountState.{account_exists, account_notfound, account_banned}
use ConnectionState.{
  status_connected, status_need_proof, status_authed, status_need_rproof, status_closing,
}
use morfeusz.RealmSocket.Packets.{
  is_expansion_build, is_supported_client_build, build_challenge_result, build_logon_proof_packet,
  build_expansion_logon_proof_packet, build_reconnect_challenge, build_reconnect_ok,
  build_realm_packet, build_expansion_realm_packet, build_challenge_packet,
}

-- A field of the packed structures over raw_buf.
abbrev pub field : List ℕ → ℕ → ℕ → List ℕ
field raw at n = take n (drop at raw)

-- A C string in an array; `none` runs past the end of it.
unfoldable pub c_string : List ℕ → Option (List ℕ)
c_string [] = none
c_string (x ∷ xs) =
    let rest = c_string xs in if x == 0 then some [] else rest >>= λ text. some (x ∷ text)

-- An uint8 against an int.
pub exceeds : ℕ → ℤ → Bool
exceeds n (ℤ.pos m) = ltb m n
exceeds n (ℤ.negsuc m) = true

module _ {L : Type 0} (env : Env L) where
  pub set_vs : Socket → Option Socket
  set_vs c = do
    let c = call (Call.fix_sv c.login) c
    v ← verifier env.openssl c.s c.acct.sha_pass
    let c = record c { v = v }
    some (call (Call.set_sv c.login (env.openssl.bn2hex c.s) (env.openssl.bn2hex c.v)) c)

  -- send(new ByteBuffer(buf)) with one of the results.
  pub answer : ℕ → Socket → Option Socket
  answer result c = do pkt ← build_challenge_result env.host result; some (send pkt c)

  -- ACCOUNT_EXISTS, behind set_vs(): b and B are drawn, and the challenge is sent.
  pub with_challenge : Socket → Socket
  with_challenge c =
      let B = challenge env.openssl srp_g env.rand_b c.v c.k srp_N in
      record c { b = env.rand_b; B = B }

  pub send_challenge : Socket → Option Socket
  send_challenge c = do
    let c = with_challenge c
    buf ← build_challenge_packet env c
    some (send buf c)

  pub account_checked : AccountState → Socket → Option Socket
  account_checked account_banned c = answer 0x03 c
  account_checked account_notfound c = answer 0x04 c
  account_checked account_exists c =
      if c.acct.locked && not (bytes_eq c.ip c.acct.last_ip)
      then answer 0x10 c
      else (do c ← set_vs c; send_challenge c)

  pub ip_ban_checked : Bool → Socket → Option Socket
  ip_ban_checked result c =
      if result then account_checked account_banned c else some (call Call.get_account c)

  pub handle_auth_logon_challenge : List ℕ → Socket → Option Socket
  handle_auth_logon_challenge raw c =
      let named = record c {
        login = c.login ++ field raw 34 (get_or raw 33 0);
        client_build = load env.host (field raw 11 2);
      } in
      if not (is_state c.state status_connected)
      then some (die c)
      else if is_supported_client_build named.client_build
      then some (record (call Call.check_ip_ban named) { state = status_need_proof })
      else answer 0x09 named

  -- The count of wrong passwords, and the ban that follows too many.
  pub count_failed_login : Socket → Socket
  count_failed_login c =
      let failed = u8 (c.acct.failed_logins + 1) in
      let c = record c { acct = record c.acct { failed_logins = failed } } in
      let c = call (Call.increment_failed_logins c.acct.id) c in
      if exceeds failed env.wrong_pass_amnt
      then if bytes_eq env.wrong_pass_ban_type (105 ∷ 112 ∷ [])
        then call (Call.ban_ip c.ip) c
        else call (Call.ban_account c.acct.id) c
      else c

  pub handle_failed_login : Socket → Option Socket
  handle_failed_login c =
      account_checked account_notfound (if env.wrong_pass_ban then count_failed_login c else c)

  unfoldable pub authed : Socket → ByteBuffer → Option Socket
  authed c data' = some (record (send data' c) { state = status_authed })

  -- The branch of handle_auth_logon_proof where the proof is right.
  pub accept_proof : ProofPacket → Proof → Socket → Option Socket
  accept_proof prf proof c =
      let hamk_fin = server_proof env.openssl prf.A proof in
      let c = call (Call.update_account c.login c.ip proof.K) c in
      if c.client_build == 5875
      then build_logon_proof_packet env.host hamk_fin >>= authed c
      else if is_expansion_build c.client_build
      then build_expansion_logon_proof_packet env.host hamk_fin >>= authed c
      else some (die c)

  abbrev pub proof_packet : List ℕ → ProofPacket
  proof_packet raw = record { A = field raw 1 32; M1 = field raw 33 20 }

  abbrev pub login_of : Socket → Login
  login_of c = record { login = c.login; s = c.s; v = c.v; b = c.b; B = c.B }

  pub judge_proof : ProofPacket → Socket → Proof → Option Socket
  judge_proof prf c proof =
      if bytes_eq prf.M1 proof.M then accept_proof prf proof c else handle_failed_login c

  pub handle_auth_logon_proof : List ℕ → Socket → Option Socket
  handle_auth_logon_proof raw c =
      let prf = proof_packet raw in
      if not (is_state c.state status_need_proof)
      then some (die c)
      else expected_proof env.openssl env.stack (login_of c) prf >>= judge_proof prf c

  -- The list for the client's build, and its sending.
  pub send_realm_list : Socket → Option Socket
  send_realm_list c =
      if c.client_build == 5875
      then (build_realm_packet env c >>= λ data'. some (send data' c))
      else if is_expansion_build c.client_build
      then (build_expansion_realm_packet env c >>= λ r. some (send r.0 r.1))
      else some (die c)

  pub handle_realm_list : Socket → Option Socket
  handle_realm_list c =
      if not (is_state c.state status_authed)
      then some (die c)
      else if ltb 0 (length c.realm_char_amount)
      then send_realm_list c
      else some (call Call.get_char_amount c)

  -- get_char_amount(std::map<uint8, uint8>): set_vs() follows the list, and not the die().
  pub get_char_amount : List (ℕ × ℕ) → Socket → Option Socket
  get_char_amount amnt c =
      let c = record c { realm_char_amount = amnt } in
      if c.client_build == 5875
      then (build_realm_packet env c >>= λ data'. set_vs (send data' c))
      else if is_expansion_build c.client_build
      then (build_expansion_realm_packet env c >>= λ r. set_vs (send r.0 r.1))
      else some (die c)

  unfoldable pub handle_auth_reconnect_challenge : List ℕ → Socket → Option Socket
  handle_auth_reconnect_challenge raw c =
      if not (is_state c.state status_connected) then some (die c) else (do
        login ← c_string (drop 34 raw)
        let c = record c { client_build = load env.host (field raw 11 2); login = login }
        some (record (call Call.get_sessionkey c) { state = status_need_rproof }))

  -- H(I|R1|proof|k), with the numbers at the start of two fresh arrays.
  unfoldable pub reconnect_hash : List ℕ → Socket → Option (List ℕ)
  reconnect_hash raw c = do
    proof ← fill (env.heap 16) (env.openssl.bn2bin c.reconnect_proof)
    key ← fill (env.heap 40) (env.openssl.bn2bin c.k)
    some (env.openssl.sha1 (c.login ++ (field raw 1 16 ++ (take 16 proof ++ take 40 key))))

  unfoldable pub judge_hash : List ℕ → Socket → List ℕ → Option Socket
  judge_hash raw c hash =
      if bytes_eq hash (field raw 17 20)
      then build_reconnect_ok env.host >>= authed c
      else some (die c)

  unfoldable pub handle_auth_reconnect_proof : List ℕ → Socket → Option Socket
  handle_auth_reconnect_proof raw c =
      if not (is_state c.state status_need_rproof)
      then some (die c)
      else reconnect_hash raw c >>= judge_hash raw c

  pub get_sessionkey : Bool → Socket → Option Socket
  get_sessionkey false c = some (die c)
  get_sessionkey true c = do
    let c = record c { reconnect_proof = env.rand_proof }
    rpr ← fill (env.heap 16) (env.openssl.bn2bin c.reconnect_proof)
    pkt ← build_reconnect_challenge env.host (take 16 rpr)
    some (record (send pkt c) { state = status_need_rproof })
