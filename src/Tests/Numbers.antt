-- ===== src/Tests/Numbers.antt =====
-- An OpenSSL that keeps the laws of its numbers, and SRP6 with small ones. Its hash is constant.
use morfeusz.Base.{
  ℕ, zero, suc, ◌+◌, ◌-◌, ◌*◌, ◌%◌, ◌/◌, ◌^◌, ◌≤◌, ◌<◌, ◌≡◌, refl, ap, ◌∙◌, List, [], ◌∷◌, reverse,
  reverse-reverse, some, false, arith, ◌==◌, if◌then◌else◌, length, replicate, length-reverse,
  le_value, AllBytes, AllBytes-reverse,
}
use native.Mathlib.Nat.{pow-suc}
use morfeusz.Srp.{
  OpenSsl, IsOpenSsl, reversed_buffer, challenge, secret, Login, ProofPacket, expected_proof,
}
use morfeusz.Srp.Agreement.{secret-challenge, expected_proof-ignores_v}
use morfeusz.Srp.Buffers.{reversed_buffer_lem}

-- The bytes of a number without leading zeros, lowest first; `fuel` is at least the number.
abbrev digits : ℕ → ℕ → List ℕ
digits zero x = []
digits (suc fuel) x = let rest = digits fuel (x / 256) in if x == 0 then [] else (x % 256) ∷ rest

abbrev pub openssl : OpenSsl
openssl = record {
  mod_exp = λ a p m. a ^ p % m;
  mul = λ a b. a * b;
  add = λ a b. a + b;
  remainder = λ a m. a % m;
  sha1 = λ bytes. replicate 20 0;
  bn2bin = λ x. reverse (digits x x);
  bin2bn = λ bytes. le_value (reverse bytes);
  hex2bn = λ text. 0;
  is_hex = λ text. false;
  bn2hex = λ x. [];
}

le_value-digits : (fuel x : ℕ) → x ≤ fuel → le_value (digits fuel x) ≡ x
unfolding le_value
le_value-digits zero x h = omega arith
le_value-digits (suc fuel) x h = ground (arith, le_value-digits fuel (x / 256) (omega arith))

AllBytes-digits : (fuel x : ℕ) → AllBytes (digits fuel x)
AllBytes-digits zero x = tt
AllBytes-digits (suc fuel) x = ground (arith, AllBytes-digits fuel (x / 256))

length-digits : (n fuel x : ℕ) → x < 256 ^ n → length (digits fuel x) ≤ n
length-digits n zero x h = omega arith
length-digits zero (suc fuel) x h = ground arith
length-digits (suc n) (suc fuel) x h =
    let smaller : x / 256 < 256 ^ n = omega (arith, pow-suc 256 n) in
    ground (arith, length-digits n fuel (x / 256) smaller)

pub openssl-IsOpenSsl : IsOpenSsl openssl
openssl-IsOpenSsl = record {
  mod_exp_lem = λ a p m. refl;
  mul_lem = λ a b. refl;
  add_lem = λ a b. refl;
  remainder_lem = λ a m. refl;
  bn2bin_lem = λ x. ap le_value (reverse-reverse (digits x x)) ∙ le_value-digits x x (omega arith);
  bn2bin_bytes = λ x. AllBytes-reverse (digits x x) (AllBytes-digits x x);
  bn2bin_length = λ x n h. omega (arith, length-reverse (digits x x), length-digits n x x h);
  bin2bn_lem = λ bytes h. refl;
  length-sha1 = λ bytes. refl;
  sha1_bytes = λ bytes. ground arith;
}

-- N = 23, g = 5, k = 3; the client draws 6, realmd 15; the password's exponent is 4.
secret-challenge_example :
    secret openssl (openssl.mod_exp 5 6 23) (openssl.mod_exp 5 4 23) 2 15 23 ≡ 19 ^ (6 + 2 * 4) % 23
unfolding challenge
secret-challenge_example = secret-challenge openssl openssl-IsOpenSsl 5 3 23 6 15 4 2 19 refl

reversed_buffer_example :
    (buf : List ℕ) × (reversed_buffer openssl 4 5 ≡ some buf)
    × (length buf ≡ 4)
    × (le_value buf ≡ 256 ^ (4 - length (openssl.bn2bin 5)) * 5)
reversed_buffer_example = reversed_buffer_lem openssl openssl-IsOpenSsl 4 5 (omega arith)

abbrev login : Login
login = record { login = 65 ∷ []; s = 1; v = 7; b = 9; B = 2 }

abbrev zero_proof : ProofPacket
zero_proof = record { A = replicate 32 0; M1 = replicate 20 0 }

expected_proof-ignores_v_example :
    expected_proof openssl (replicate 32 0) login zero_proof
    ≡ expected_proof openssl (replicate 32 0) (record login { v = 8 }) zero_proof
unfolding le_value
expected_proof-ignores_v_example =
    expected_proof-ignores_v openssl openssl-IsOpenSsl (replicate 32 0) login 8 zero_proof refl
      (omega arith)
