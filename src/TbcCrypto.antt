-- ===== src/TbcCrypto.antt =====
-- proxyd/tbc/Proxy_Crypto.h and .cpp: the stream cipher over the packet headers. HMAC-SHA1 and
-- BN_bn2bin are OpenSSL's and stand as arguments of `set_key`.
pub mod Inverse
use morfeusz.Base.{
  ℕ, zero, suc, ◌+◌, ◌-◌, ◌%◌, Bool, true, false, List, [], ◌∷◌, reverse, Option, none, some, ◌>>=◌,
  bit_xor, u8, get_or, replicate, if◌then◌else◌,
}

pub record TbcCrypto : Type 0 where
  pub is_initialised : Bool
  pub key : List ℕ
  pub send_i : ℕ
  pub send_j : ℕ
  pub recv_i : ℕ
  pub recv_j : ℕ

-- SHA_DIGEST_LENGTH, CRYPTED_SEND_LEN and CRYPTED_RECV_LEN.
abbrev pub sha_digest_length : ℕ
sha_digest_length = 20

abbrev pub crypted_send_len : ℕ
crypted_send_len = 4

abbrev pub crypted_recv_len : ℕ
crypted_recv_len = 6

pub new_crypto : TbcCrypto
new_crypto = record {
  is_initialised = false;
  key = replicate sha_digest_length 0;
  send_i = 0;
  send_j = 0;
  recv_i = 0;
  recv_j = 0;
}

-- proxyd/Crypto_Keys.h
abbrev pub tbc_encryption_key : List ℕ
tbc_encryption_key =
    0x38 ∷ 0xA7 ∷ 0x83 ∷ 0x15 ∷ 0xF8 ∷ 0x92 ∷ 0x25 ∷ 0x30 ∷ 0x71 ∷ 0x98 ∷ 0x67 ∷ 0xB1 ∷ 0x8C ∷ 0x04
    ∷ 0xE2 ∷ 0xAA ∷ []

unfoldable pub set_key : (List ℕ → List ℕ → List ℕ) → (ℕ → List ℕ) → ℕ → TbcCrypto → TbcCrypto
set_key hmac_sha1 bn2bin session_key c = record c {
  key = hmac_sha1 tbc_encryption_key (reverse (bn2bin session_key));
  is_initialised = true;
}

-- The loop of `encrypt` with the rounds left, on the bytes from data[t] on; `i` and `j` are
-- send_i and send_j. `none` is an access past the end of the data.
unfoldable pub encrypt_loop : List ℕ → ℕ → List ℕ → ℕ → ℕ → Option (List ℕ × ℕ × ℕ)
encrypt_loop key zero bytes i j = some (bytes, i, j)
encrypt_loop key (suc n) [] i j = none
encrypt_loop key (suc n) (d ∷ bytes) i j =
    let at = i % sha_digest_length in
    let x = u8 (bit_xor d (get_or key at 0) + j) in
    do (rest, i', j') ← encrypt_loop key n bytes (at + 1) x; some (x ∷ rest, i', j')

unfoldable pub encrypt : List ℕ → TbcCrypto → Option (List ℕ × TbcCrypto)
encrypt bytes c =
    if c.is_initialised
    then (do
      (out, i, j) ← encrypt_loop c.key crypted_send_len bytes c.send_i c.send_j
      some (out, record c { send_i = i; send_j = j }))
    else some (bytes, c)

-- The loop of `decrypt`; `i` and `j` are recv_i and recv_j. The difference of two bytes is cut
-- to a byte before the exclusive or, which changes no low bit.
pub decrypt_loop : List ℕ → ℕ → List ℕ → ℕ → ℕ → Option (List ℕ × ℕ × ℕ)
decrypt_loop key zero bytes i j = some (bytes, i, j)
decrypt_loop key (suc n) [] i j = none
decrypt_loop key (suc n) (d ∷ bytes) i j =
    let at = i % sha_digest_length in
    let x = bit_xor (u8 (d + 256 - j)) (get_or key at 0) in
    do (rest, i', j') ← decrypt_loop key n bytes (at + 1) d; some (x ∷ rest, i', j')

pub decrypt : List ℕ → TbcCrypto → Option (List ℕ × TbcCrypto)
decrypt bytes c =
    if c.is_initialised
    then (do
      (out, i, j) ← decrypt_loop c.key crypted_recv_len bytes c.recv_i c.recv_j
      some (out, record c { recv_i = i; recv_j = j }))
    else some (bytes, c)
