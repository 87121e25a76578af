-- ===== src/TbcCrypto/Inverse.antt =====
-- proxyd/tbc/Proxy_Crypto.cpp: the two loops undo one another.
use morfeusz.Base.{
  ℕ, zero, suc, ◌+◌, ◌-◌, ◌%◌, ◌≤◌, ◌<◌, ◌≡◌, refl, true, List, [], ◌∷◌, Option, some, ◌>>=◌,
  bit_xor, u8, get_or, length, arith, AllBytes,
}
use morfeusz.Base.Bits.{bit_xor-lt, bit_xor_cancel}
use morfeusz.TbcCrypto.{
  TbcCrypto, encrypt_loop, decrypt_loop, crypted_send_len, crypted_recv_len, encrypt, decrypt,
  sha_digest_length,
}

get_or-byte : (key : List ℕ) (i : ℕ) → AllBytes key → get_or key i 0 < 256
get_or-byte [] i h = omega arith
get_or-byte (k ∷ key) zero h = h.0
get_or-byte (k ∷ key) (suc i) h = get_or-byte key i h.1

byte_back :
    (d k j : ℕ) → d < 256 → k < 256 → j < 256 → bit_xor (u8 (u8 (bit_xor d k + j) + 256 - j)) k ≡ d
byte_back d k j hd hk hj =
    let e : u8 (u8 (bit_xor d k + j) + 256 - j) ≡ bit_xor d k =
      omega (arith, bit_xor-lt 8 d k hd hk) in
    rw e (bit_xor_cancel d k)

-- Where the data has `n` bytes, `encrypt_loop` succeeds, and `decrypt_loop` from the same position
-- and chaining byte gives the data back and ends in the same position and chaining byte.
pub decrypt_loop-encrypt_loop :
    (key : List ℕ) (n : ℕ) (bytes : List ℕ) (i j : ℕ)
    → AllBytes key
    → AllBytes bytes
    → j < 256
    → n ≤ length bytes
    → (out : List ℕ) × (i' : ℕ) × (j' : ℕ) × (encrypt_loop key n bytes i j ≡ some (out, i', j'))
      × (decrypt_loop key n out i j ≡ some (bytes, i', j'))
      × (j' < 256)
      × (length out ≡ length bytes)
unfolding encrypt_loop decrypt_loop
decrypt_loop-encrypt_loop key zero bytes i j hk hb hj h = (bytes, i, j, refl, refl, hj, refl)
decrypt_loop-encrypt_loop key (suc n) [] i j hk hb hj h = absurd (omega arith)
decrypt_loop-encrypt_loop key (suc n) (d ∷ bytes) i j hk hb hj h =
    let k = get_or key (i % sha_digest_length) 0 in
    let x = u8 (bit_xor d k + j) in
    let (out, i', j', enc, dec, hj', len) =
      decrypt_loop-encrypt_loop key n bytes (i % sha_digest_length + 1) x hk hb.1 (omega arith)
        (omega arith) in
    (
      x ∷ out,
      i',
      j',
      rw enc,
      rw (dec, byte_back d k j hb.0 (get_or-byte key (i % sha_digest_length) hk) hj),
      hj',
      omega arith,
    )

-- A run of outgoing headers through `encrypt`.
pub encrypt_all : List (List ℕ) → TbcCrypto → Option (List (List ℕ) × TbcCrypto)
encrypt_all [] c = some ([], c)
encrypt_all (h ∷ hs) c = do
  (out, c') ← encrypt h c
  (outs, c'') ← encrypt_all hs c'
  some (out ∷ outs, c'')

-- The peer at the other end of the connection: it has the key and undoes header after header.
unfoldable pub decrypt_all : List ℕ → List (List ℕ) → ℕ → ℕ → Option (List (List ℕ) × ℕ × ℕ)
decrypt_all key [] i j = some ([], i, j)
decrypt_all key (h ∷ hs) i j = do
  (out, i', j') ← decrypt_loop key crypted_send_len h i j
  (outs, i'', j'') ← decrypt_all key hs i' j'
  some (out ∷ outs, i'', j'')

abbrev pub AreHeaders : List (List ℕ) → Type 0
AreHeaders [] = Unit {0}
AreHeaders (h ∷ hs) = (crypted_send_len ≤ length h) × AllBytes h × AreHeaders hs

-- Any run of headers goes through, and a peer that starts with the same key, position and
-- chaining byte reads every header as it was sent.
pub decrypt_all-encrypt_all :
    (hs : List (List ℕ)) (c : TbcCrypto)
    → c.is_initialised ≡ true
    → AllBytes c.key
    → c.send_j < 256
    → AreHeaders hs
    → (outs : List (List ℕ)) × (c' : TbcCrypto) × (encrypt_all hs c ≡ some (outs, c'))
      × (decrypt_all c.key outs c.send_i c.send_j ≡ some (hs, c'.send_i, c'.send_j))
unfolding encrypt_all decrypt_all encrypt
decrypt_all-encrypt_all [] c init hk hj hs = ([], c, refl, refl)
decrypt_all-encrypt_all (h ∷ hs) c init hk hj hyp =
    let (out, i, j, enc, dec, below, _) =
      decrypt_loop-encrypt_loop c.key crypted_send_len h c.send_i c.send_j hk hyp.1 hj hyp.0 in
    let c1 : TbcCrypto = record c { send_i = i; send_j = j } in
    let (outs, c', encs, decs) = decrypt_all-encrypt_all hs c1 init hk below hyp.2 in
    let step : encrypt h c ≡ some (out, c1) = ground arith in
    (out ∷ outs, c', rw (step, encs), rw (dec, decs))

-- `decrypt` reads a header that a client with the same key sent from the same position, and
-- leaves the sending side alone.
pub decrypt-encrypt_loop :
    (bytes out : List ℕ) (c : TbcCrypto) (i j : ℕ)
    → c.is_initialised ≡ true
    → AllBytes c.key
    → AllBytes bytes
    → c.recv_j < 256
    → crypted_recv_len ≤ length bytes
    → encrypt_loop c.key crypted_recv_len bytes c.recv_i c.recv_j ≡ some (out, i, j)
    → decrypt out c ≡ some (bytes, record c { recv_i = i; recv_j = j })
unfolding decrypt
decrypt-encrypt_loop bytes out c i j init hk hb hj len sent =
    let (out', i', j', enc, dec, _, _) =
      decrypt_loop-encrypt_loop c.key crypted_recv_len bytes c.recv_i c.recv_j hk hb hj len in
    ground arith
