-- ===== src/Srp/Agreement.antt =====
-- The client and realmd compute the same SRP6 secret, and a client value that is a multiple of N
-- makes the secret independent of the password.
use morfeusz.Base.{ℕ, zero, suc, ◌+◌, ◌*◌, ◌%◌, ◌^◌, ◌<◌, ◌≡◌, sym, ap, ◌∙◌, List, reverse, arith}
use morfeusz.Base.Modular.{pow_add, pow_mul, mod-mul-mod, mul-mod-mod, mod-pow, mod-add_cancel}
use native.Mathlib.Nat.{mul_comm, add-mod-mod, zero-mul, zero-mod, pow-suc, mul-zero}
use morfeusz.Srp.{OpenSsl, IsOpenSsl, srp_N, challenge, secret, Login, ProofPacket, expected_proof}

module _ (o : OpenSsl) (laws : IsOpenSsl o) where
  challenge_lem : (g b v k n : ℕ) → challenge o g b v k n ≡ (v * k + g ^ b) % n
  unfolding challenge
  challenge_lem g b v k n =
      rw
        (
          laws.remainder_lem (o.add (o.mul v k) (o.mod_exp g b n)) n,
          laws.add_lem (o.mul v k) (o.mod_exp g b n),
          laws.mul_lem v k,
          laws.mod_exp_lem g b n,
        )
        (add-mod-mod (v * k) (g ^ b) n)

  secret_lem : (a v u b n : ℕ) → secret o a v u b n ≡ (a * v ^ u) ^ b % n
  unfolding secret
  secret_lem a v u b n =
      rw
        (
          laws.mod_exp_lem (o.mul a (o.mod_exp v u n)) b n,
          laws.mul_lem a (o.mod_exp v u n),
          laws.mod_exp_lem v u n,
        )
        (sym (mod-pow (a * (v ^ u % n)) b n)
          ∙ ap (λ (t : ℕ). t ^ b % n) (mul-mod-mod a (v ^ u) n)
          ∙ mod-pow (a * v ^ u) b n)

  -- A and v are powers of g: the base of realmd's last power.
  server_base : (g a x u n : ℕ) → (g ^ a % n * (g ^ x % n) ^ u) % n ≡ g ^ (a + u * x) % n
  server_base g a x u n =
      mod-mul-mod (g ^ a) ((g ^ x % n) ^ u) n
      ∙ sym (mul-mod-mod (g ^ a) ((g ^ x % n) ^ u) n)
      ∙ ap (λ (t : ℕ). (g ^ a * t) % n) (mod-pow (g ^ x) u n)
      ∙ mul-mod-mod (g ^ a) ((g ^ x) ^ u) n
      ∙ ap (λ (t : ℕ). (g ^ a * t) % n) (sym (pow_mul g x u))
      ∙ ap (λ (t : ℕ). t % n) (sym (pow_add g a (x * u)))
      ∙ ap (λ (t : ℕ). g ^ (a + t) % n) (mul_comm x u)

  -- A client that knows the exponent x of the verifier, has sent g ^ a and takes k * v off the
  -- challenge gets realmd's secret, as that base to the power a + u * x.
  pub secret-challenge :
      (g k n a b x u base : ℕ)
      → (base + k * o.mod_exp g x n) % n ≡ challenge o g b (o.mod_exp g x n) k n
      → secret o (o.mod_exp g a n) (o.mod_exp g x n) u b n ≡ base ^ (a + u * x) % n
  secret-challenge g k n a b x u base h =
      rw
        (
          secret_lem (o.mod_exp g a n) (o.mod_exp g x n) u b n,
          laws.mod_exp_lem g a n,
          laws.mod_exp_lem g x n,
        )
        (sym (mod-pow (g ^ a % n * (g ^ x % n) ^ u) b n)
          ∙ ap (λ (t : ℕ). t ^ b % n) (server_base g a x u n)
          ∙ mod-pow (g ^ (a + u * x)) b n
          ∙ ap (λ (t : ℕ). t % n) (swap_powers (a + u * x))
          ∙ sym (mod-pow (g ^ b) (a + u * x) n)
          ∙ ap (λ (t : ℕ). t ^ (a + u * x) % n) (sym same_base)
          ∙ mod-pow base (a + u * x) n)
    where
      v : ℕ
      v = o.mod_exp g x n

      same_base : base % n ≡ g ^ b % n
      same_base =
          mod-add_cancel base (g ^ b) (k * v) n
            (h ∙ challenge_lem g b v k n ∙ ap (λ (t : ℕ). t % n) (omega arith))

      swap_powers : (e : ℕ) → (g ^ e) ^ b ≡ (g ^ b) ^ e
      swap_powers e = sym (pow_mul g e b) ∙ ap (λ (t : ℕ). g ^ t) (mul_comm e b) ∙ pow_mul g b e

  secret_zero : (a v u b n : ℕ) → a % n ≡ 0 → 0 < b → secret o a v u b n ≡ 0
  secret_zero a v u zero n h p = absurd (omega arith)
  secret_zero a v u (suc b) n h p =
      secret_lem a v u (suc b) n
      ∙ sym (mod-pow (a * v ^ u) (suc b) n)
      ∙ ap (λ (t : ℕ). t ^ suc b % n)
          (sym (mod-mul-mod a (v ^ u) n)
            ∙ ap (λ (t : ℕ). (t * v ^ u) % n) h
            ∙ ap (λ (t : ℕ). t % n) (zero-mul (v ^ u))
            ∙ zero-mod n)
      ∙ ap (λ (t : ℕ). t % n) (pow-suc 0 b ∙ mul-zero (0 ^ b))
      ∙ zero-mod n

  -- If the client's A is a multiple of N, the proof that realmd expects and the session key are
  -- the same for every verifier: they do not depend on the password.
  pub expected_proof-ignores_v :
      (stack : List ℕ) (c : Login) (v' : ℕ) (prf : ProofPacket)
      → o.bin2bn (reverse prf.A) % srp_N ≡ 0
      → 0 < c.b
      → expected_proof o stack c prf ≡ expected_proof o stack (record c { v = v' }) prf
  unfolding expected_proof
  expected_proof-ignores_v stack c v' prf h p = simp (
    expected_proof,
    secret_zero (o.bin2bn (reverse prf.A)) c.v,
    secret_zero (o.bin2bn (reverse prf.A)) v',
  )
