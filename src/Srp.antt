-- ===== src/Srp.antt =====
-- The SRP6 arithmetic of realmd/Realm_Socket.cpp: the challenge of account_checked, the verifier
-- of set_vs, and the proof of handle_auth_logon_proof. OpenSSL is an argument, and what it does
-- (bn(3), sha(3)) is the record `IsOpenSsl`. A number is unsigned; sizes are in bytes.
pub mod Agreement
pub mod Buffers
use mathlib.Core.Option
use morfeusz.Base.{
  ℕ, zero, suc, ◌+◌, ◌*◌, ◌%◌, ◌^◌, ◌≤◌, ◌<◌, ◌≡◌, Bool, List, [], ◌∷◌, ◌++◌, reverse, Option, none,
  some, ◌>>=◌, bit_xor, leb, if◌then◌else◌, bytes_eq, length, get_or, drop, replicate, AllBytes,
  le_value,
}

-- OpenSSL's functions; `is_hex` is whether BN_hex2bn returns more than 0, and so has read a number.
pub record OpenSsl : Type 0 where
  pub mod_exp : ℕ → ℕ → ℕ → ℕ
  pub mul : ℕ → ℕ → ℕ
  pub add : ℕ → ℕ → ℕ
  pub remainder : ℕ → ℕ → ℕ
  pub sha1 : List ℕ → List ℕ
  pub bn2bin : ℕ → List ℕ
  pub bin2bn : List ℕ → ℕ
  pub hex2bn : List ℕ → ℕ
  pub is_hex : List ℕ → Bool
  pub bn2hex : ℕ → List ℕ

-- BN_bn2bin is big-endian with no leading zero byte, BN_bin2bn its inverse.
pub record IsOpenSsl (o : OpenSsl) : Type 0 where
  pub mod_exp_lem : (a p m : ℕ) → o.mod_exp a p m ≡ a ^ p % m
  pub mul_lem : (a b : ℕ) → o.mul a b ≡ a * b
  pub add_lem : (a b : ℕ) → o.add a b ≡ a + b
  pub remainder_lem : (a m : ℕ) → o.remainder a m ≡ a % m
  pub bn2bin_lem : (x : ℕ) → le_value (reverse (o.bn2bin x)) ≡ x
  pub bn2bin_bytes : (x : ℕ) → AllBytes (o.bn2bin x)
  pub bn2bin_length : (x n : ℕ) → x < 256 ^ n → length (o.bn2bin x) ≤ n
  pub bin2bn_lem : (bytes : List ℕ) → AllBytes bytes → o.bin2bn bytes ≡ le_value (reverse bytes)
  pub length-sha1 : (bytes : List ℕ) → length (o.sha1 bytes) ≡ 20
  pub sha1_bytes : (bytes : List ℕ) → AllBytes (o.sha1 bytes)

-- N and g of the constructor, and its k.
abbrev pub srp_N : ℕ
srp_N = 0x894B645E89E1535BBDAD5B8B290650530801B18EBFBF5E8FAB3C82872A3E9BB7

abbrev pub srp_g : ℕ
srp_g = 7

-- BN_bn2bin(x, buffer): the bytes go to the start of the buffer, whatever it held. `none` is a
-- write past its end.
unfoldable pub fill : List ℕ → List ℕ → Option (List ℕ)
fill buffer bytes =
    if leb (length bytes) (length buffer) then some (bytes ++ drop (length bytes) buffer) else none

-- ACE_OS::memset, BN_bn2bin and std::reverse over the whole buffer.
unfoldable pub reversed_buffer : OpenSsl → ℕ → ℕ → Option (List ℕ)
reversed_buffer o n x = Option.map reverse (fill (replicate n 0) (o.bn2bin x))

-- account_checked: B = (v * k + g ^ b % N) % N
unfoldable pub challenge : OpenSsl → ℕ → ℕ → ℕ → ℕ → ℕ → ℕ
challenge o g b v k n =
    let temp = o.mod_exp g b n in let temp2 = o.mul v k in o.remainder (o.add temp2 temp) n

-- handle_auth_logon_proof: S = (A * (v ^ u % N)) ^ b % N
unfoldable pub secret : OpenSsl → ℕ → ℕ → ℕ → ℕ → ℕ → ℕ
secret o a v u b n = let temp = o.mod_exp v u n in let temp = o.mul a temp in o.mod_exp temp b n

-- set_vs: x from the salt and the stored hash, and v = g ^ x % N.
pub private_exponent : OpenSsl → ℕ → List ℕ → Option ℕ
private_exponent o s sha_pass = do
  s_ch ← reversed_buffer o 32 s
  p_ch ← fill (replicate 20 0) (o.bn2bin (o.hex2bn sha_pass))
  some (o.bin2bn (reverse (o.sha1 (s_ch ++ p_ch))))

pub verifier : OpenSsl → ℕ → List ℕ → Option ℕ
verifier o s sha_pass = do x ← private_exponent o s sha_pass; some (o.mod_exp srp_g x srp_N)

-- Every other byte from `at` on, `n` of them: S_buff_half.
unfoldable pub every_other : ℕ → ℕ → List ℕ → List ℕ
every_other zero at buf = []
every_other (suc n) at buf = get_or buf at 0 ∷ every_other n (at + 2) buf

-- K_buff: the digests of the halves, byte by byte in turn.
unfoldable pub weave : List ℕ → List ℕ → List ℕ
weave [] ys = []
weave (x ∷ xs) [] = []
weave (x ∷ xs) (y ∷ ys) = x ∷ y ∷ weave xs ys

unfoldable pub session_key : OpenSsl → List ℕ → List ℕ
session_key o s_buff = weave (o.sha1 (every_other 16 0 s_buff)) (o.sha1 (every_other 16 1 s_buff))

unfoldable pub xor_bytes : List ℕ → List ℕ → List ℕ
xor_bytes [] ys = []
xor_bytes (x ∷ xs) [] = []
xor_bytes (x ∷ xs) (y ∷ ys) = bit_xor x y ∷ xor_bytes xs ys

-- The numbers and the text of the socket that the proof depends on.
pub record Login : Type 0 where
  pub login : List ℕ
  pub s : ℕ
  pub v : ℕ
  pub b : ℕ
  pub B : ℕ

-- AUTH_LOGON_PROOF_C, as far as it is read.
pub record ProofPacket : Type 0 where
  pub A : List ℕ
  pub M1 : List ℕ

pub record Proof : Type 0 where
  pub M : List ℕ
  pub K : List ℕ

-- handle_auth_logon_proof up to the comparison. `stack` is what S_buff holds before BN_bn2bin:
-- it is the one buffer that is not cleared.
unfoldable pub expected_proof : OpenSsl → List ℕ → Login → ProofPacket → Option Proof
expected_proof o stack c prf = do
  let a = o.bin2bn (reverse prf.A)
  b_buff ← reversed_buffer o 32 c.B
  let u = o.bin2bn (reverse (o.sha1 (prf.A ++ b_buff)))
  s_full ← fill stack (o.bn2bin (secret o a c.v u c.b srp_N))
  let k_buff = session_key o (reverse s_full)
  n_buff ← reversed_buffer o 32 srp_N
  let hn_xor_hg = xor_bytes (o.sha1 n_buff) (o.sha1 (srp_g ∷ []))
  s_buff ← reversed_buffer o 32 c.s
  some (record {
    M = o.sha1 (hn_xor_hg ++ (o.sha1 c.login ++ (s_buff ++ (prf.A ++ (b_buff ++ k_buff)))));
    K = k_buff;
  })

-- H(A|M|K), which the server answers with.
pub server_proof : OpenSsl → List ℕ → Proof → List ℕ
server_proof o a p = o.sha1 (a ++ (p.M ++ p.K))
