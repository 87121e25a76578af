-- ===== src/ByteBuffer/PackGuid/Bits.antt =====
-- common/ByteBuffer.h, appendPackGUID: the mask is built by `|=` with bits that stand above it.
use morfeusz.Base.{
  subst, sym, ℕ, zero, suc, ◌+◌, ◌^◌, ◌<◌, ◌≡◌, refl, inl, inr, Bool, true, false, bit_or, ◌==◌,
  ==_iff, if◌then◌else◌, Bool-cases, arith, u8,
}

-- Whether the i-th bit is added to each of the first `masks` masks.
adds_bit : ℕ → ℕ → Bool
adds_bit i zero = true
adds_bit i (suc masks) =
    if bit_or masks (u8 (2 ^ i)) == masks + 2 ^ i then adds_bit i masks else false

adds_bit-bit_or :
    (i masks m : ℕ) → m < masks → adds_bit i masks ≡ true → bit_or m (u8 (2 ^ i)) ≡ m + 2 ^ i
unfolding adds_bit
adds_bit-bit_or i zero m few ok = absurd (omega arith)
adds_bit-bit_or i (suc masks) m few ok =
    let top : bit_or masks (u8 (2 ^ i)) ≡ masks + 2 ^ i =
      (==_iff _ (masks + 2 ^ i)).0 (ground arith) in
    elim (Bool-cases (m == masks)) [
      | inl same ↦
          subst (λ k. bit_or k (u8 (2 ^ i)) ≡ k + 2 ^ i) (sym ((==_iff m masks).0 same)) top
      | inr other ↦ adds_bit-bit_or i masks m (ground arith) (ground arith)
    ]

-- The bits below the i-th, on all masks that they stand above.
bits_add : ℕ → Bool
bits_add zero = true
bits_add (suc i) = if adds_bit i (2 ^ i) then bits_add i else false

bits_add-adds_bit : (n i : ℕ) → i < n → bits_add n ≡ true → adds_bit i (2 ^ i) ≡ true
unfolding bits_add
bits_add-adds_bit zero i few ok = absurd (omega arith)
bits_add-adds_bit (suc n) i few ok =
    let last : adds_bit n (2 ^ n) ≡ true = ground arith in
    elim (Bool-cases (i == n)) [
      | inl same ↦ subst (λ k. adds_bit k (2 ^ k) ≡ true) (sym ((==_iff i n).0 same)) last
      | inr other ↦ bits_add-adds_bit n i (ground arith) (ground arith)
    ]

of_a_byte : bits_add 8 ≡ true
unfolding bits_add adds_bit
of_a_byte = refl

-- A bit of a byte above a mask is added to it.
pub bit_or-above : (i m : ℕ) → i < 8 → m < 2 ^ i → bit_or m (u8 (2 ^ i)) ≡ m + 2 ^ i
bit_or-above i m h below = adds_bit-bit_or i (2 ^ i) m below (bits_add-adds_bit 8 i h of_a_byte)
