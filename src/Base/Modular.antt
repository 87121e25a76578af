-- ===== src/Base/Modular.antt =====
-- Powers of the native numbers, and arithmetic modulo a number.
use Prim.Native.Nat.{ℕ, zero, suc, ◌+◌, ◌-◌, ◌*◌, ◌/◌, ◌%◌, ◌^◌}
use mathlib.Core.Path.{◌≡◌, sym, ap, ◌∙◌}
use native.Mathlib.Nat.{
  pow-suc, pow-zero, mul_assoc, mul_comm, mul-one, add-mul-mod_self_left, div-add-mod, mod-add-mod,
  add-zero, add-suc, mul-zero, mul-suc, mod-zero, mod-lt,
}
use native.Mathlib.Numerals.{add-one}
use native.Mathlib.Omega.{arith}

pub pow_add : (a m n : ℕ) → a ^ (m + n) ≡ a ^ m * a ^ n
pow_add a m zero = simp (add-zero, pow-zero, mul-one)
pow_add a m (suc n) =
    rw (add-suc m n, pow-suc a (m + n), pow-suc a n, pow_add a m n) (mul_assoc (a ^ m) (a ^ n) a)

pub mul-pow : (a b n : ℕ) → (a * b) ^ n ≡ a ^ n * b ^ n
mul-pow a b zero = simp (pow-zero, mul-one)
mul-pow a b (suc n) = rw (pow-suc (a * b) n, pow-suc a n, pow-suc b n, mul-pow a b n) (omega arith)

pub pow_mul : (a m n : ℕ) → a ^ (m * n) ≡ (a ^ m) ^ n
pow_mul a m zero = simp (mul-zero, pow-zero)
pow_mul a m (suc n) = rw (mul-suc m n, pow_add a (m * n) m, pow-suc (a ^ m) n, pow_mul a m n)

pub mod-mul-mod : (a b n : ℕ) → (a % n * b) % n ≡ (a * b) % n
mod-mul-mod a b n = sym (
    ap (λ (t : ℕ). (t * b) % n) (sym (div-add-mod a n))
    ∙ ap (λ (t : ℕ). t % n) (omega arith)
    ∙ add-mul-mod_self_left (a % n * b) n (a / n * b))

pub mul-mod-mod : (a b n : ℕ) → (a * (b % n)) % n ≡ (a * b) % n
mul-mod-mod a b n = rw (mul_comm a (b % n), mod-mul-mod b a n, mul_comm b a)

pub mod-pow : (a k n : ℕ) → (a % n) ^ k % n ≡ a ^ k % n
mod-pow a zero n = simp pow-zero
mod-pow a (suc k) n =
    rw
      (
        pow-suc (a % n) k,
        pow-suc a k,
        mul-mod-mod ((a % n) ^ k) a n,
        sym (mod-mul-mod ((a % n) ^ k) a n),
        mod-pow a k n,
      )
      (mod-mul-mod (a ^ k) a n)

-- What is added on both sides cancels.
pub mod-add_cancel : (a b c n : ℕ) → (a + c) % n ≡ (b + c) % n → a % n ≡ b % n
mod-add_cancel a b c zero e =
    omega (arith, mod-zero (a + c), mod-zero (b + c), mod-zero a, mod-zero b)
mod-add_cancel a b c (suc m) e = sym (back a) ∙ ap (λ (t : ℕ). (t + rest) % n) e ∙ back b
  where
    n : ℕ
    n = suc m

    rest : ℕ
    rest = n - c % n

    whole : (x : ℕ) → x + c + rest ≡ x + n * (c / n + 1)
    whole x = omega (
      arith,
      div-add-mod c (suc m),
      mod-lt c {m = suc m} (omega arith),
      mul-suc (suc m) (c / suc m),
      add-one (c / suc m),
    )

    back : (x : ℕ) → ((x + c) % n + rest) % n ≡ x % n
    back x =
        mod-add-mod (x + c) n rest
        ∙ ap (λ (t : ℕ). t % n) (whole x)
        ∙ add-mul-mod_self_left x n (c / n + 1)
