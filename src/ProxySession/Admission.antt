-- ===== src/ProxySession/Admission.antt =====
-- proxyd/tbc/Proxy_Handlers.cpp, account_retrieved: who is admitted, and with which key.
use morfeusz.Base.{
  ℕ, ◌≡◌, refl, sym, ◌⊎◌, inl, inr, true, List, [], ◌∷◌, ◌++◌, some, arith, length, length-append,
  bytes_eq, bytes_eq_sound, bytes_eq_refl, Bool-cases, Option-cases, Yields, Yields-result,
  le_bytes,
}
use morfeusz.Endian.{Host}
use morfeusz.ByteBuffer.Append.{filled}
use morfeusz.ByteBuffer.Fields.{Field, bytes, all_bytes, put_field, put_fields, put_fields-Writes}
use morfeusz.Packet.Header.{
  size_bytes, opcode_bytes, length-size_bytes, length-opcode_bytes, new_server_pkt_lem,
}
use morfeusz.TbcCrypto.{set_key}
use morfeusz.Srp.{OpenSsl}
use morfeusz.Database.Sql.{c_str}
use morfeusz.ProxySocket.{send}
use morfeusz.ProxySession.{
  Session, verifier, key_bytes, check_digest, die, auth_ok, account_retrieved,
}

-- SMSG_AUTH_RESPONSE, as it is queued.
abbrev auth_ok_fields : ℕ → List Field
auth_ok_fields expansion =
    Field.int 1 0x0C ∷ Field.int 4 0 ∷ Field.int 1 0 ∷ Field.int 4 0 ∷ Field.int 1 expansion ∷ []

unfoldable pub auth_ok_bytes : Host → ℕ → List ℕ
unfolding all_bytes
auth_ok_bytes host expansion =
    size_bytes host 11 ++ opcode_bytes host 0x1EE ++ all_bytes (auth_ok_fields expansion)

length-auth_ok_fields : (expansion : ℕ) → length (all_bytes (auth_ok_fields expansion)) ≡ 11
unfolding all_bytes bytes le_bytes
length-auth_ok_fields expansion = refl

auth_ok_lem :
    (host : Host) (expansion : ℕ)
    → auth_ok host expansion ≡ some (filled (auth_ok_bytes host expansion) 0)
unfolding auth_ok auth_ok_bytes put_fields put_field
auth_ok_lem host expansion =
    let head = length-append (size_bytes host 11) (opcode_bytes host 0x1EE) in
    rw (new_server_pkt_lem host 0x1EE 11) (
      put_fields-Writes host (auth_ok_fields expansion)
        (size_bytes host 11 ++ opcode_bytes host 0x1EE) 0
        (omega (
          arith,
          head,
          length-size_bytes host 11,
          length-opcode_bytes host 0x1EE,
          length-auth_ok_fields expansion,
        )))

module _ (host : Host) (o : OpenSsl) (hmac_sha1 : List ℕ → List ℕ → List ℕ) where
  -- The account's password gives its verifier, the client has hashed the key of the account, and the
  -- headers are enciphered with that key from now on.
  abbrev pub Admitted : Session → Session → Type 0
  Admitted c admitted =
      (v : ℕ) × (k_char : List ℕ) × (verifier o c.acct ≡ some v)
      × (o.bn2hex v ≡ c_str c.acct.v)
      × (key_bytes o (o.hex2bn (c_str c.acct.sessionkey)) ≡ some k_char)
      × (check_digest host o c k_char ≡ c.client_digest)
      × (auth_ok host c.acct.expansion ≡ some (filled (auth_ok_bytes host c.acct.expansion) 0))
      × (admitted ≡ record c {
        socket = send (filled (auth_ok_bytes host c.acct.expansion) 0) (record c.socket {
          crypto = set_key hmac_sha1 o.bn2bin (o.hex2bn (c_str c.acct.sessionkey)) c.socket.crypto;
        });
      })

  admission :
      (c : Session)
      → Yields
          (λ r. (r ≡ record c { died = true }) ⊎ Admitted c r)
          (account_retrieved host o hmac_sha1 true c)
  unfolding account_retrieved die
  admission c = elim (Option-cases (verifier o c.acct)) [
    | inl e ↦ rw e tt
    | inr (v, e) ↦ rw e (elim (Bool-cases (bytes_eq (o.bn2hex v) (c_str c.acct.v))) [
      | inr other ↦ rw other (inl refl)
      | inl same ↦ rw same (elim (Option-cases (key_bytes o (o.hex2bn (c_str c.acct.sessionkey)))) [
        | inl f ↦ rw f tt
        | inr (k_char, f) ↦
            rw f (elim (Bool-cases (bytes_eq (check_digest host o c k_char) c.client_digest)) [
              | inr wrong ↦ rw wrong (inl refl)
              | inl right ↦
                  rw (right, auth_ok_lem host c.acct.expansion)
                    (inr (
                      v,
                      k_char,
                      refl,
                      bytes_eq_sound _ _ same,
                      refl,
                      bytes_eq_sound _ _ right,
                      refl,
                      refl,
                    ))
            ])
      ])
    ])
  ]

  -- A session changes in one of two ways when its account is found: the connection is closed and
  -- nothing is sent, or the client has proved that it knows the account's key and is admitted.
  pub account_retrieved_lem :
      (c r : Session)
      → account_retrieved host o hmac_sha1 true c ≡ some r
      → (r ≡ record c { died = true }) ⊎ Admitted c r
  account_retrieved_lem c r e =
      Yields-result (λ r. (r ≡ record c { died = true }) ⊎ Admitted c r)
        (account_retrieved host o hmac_sha1 true c) r (admission c) e

  -- If the account's password gives its verifier and its key can be hashed, a client whose digest is
  -- over that key is admitted.
  pub account_retrieved-client :
      (c : Session) (v : ℕ) (k_char : List ℕ)
      → verifier o c.acct ≡ some v
      → c_str c.acct.v ≡ o.bn2hex v
      → key_bytes o (o.hex2bn (c_str c.acct.sessionkey)) ≡ some k_char
      → c.client_digest ≡ check_digest host o c k_char
      → (r : Session) × (account_retrieved host o hmac_sha1 true c ≡ some r) × Admitted c r
  unfolding account_retrieved
  account_retrieved-client c v k_char e same f right = (
    _,
    rw
        (
          e,
          same,
          bytes_eq_refl (o.bn2hex v),
          f,
          right,
          bytes_eq_refl (check_digest host o c k_char),
          auth_ok_lem host c.acct.expansion,
        )
        refl,
    (v, k_char, e, sym same, f, sym right, auth_ok_lem host c.acct.expansion, refl),
  )
