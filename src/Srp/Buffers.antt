-- ===== src/Srp/Buffers.antt =====
-- The 32-byte buffers of realmd/Realm_Socket.cpp: what BN_bn2bin into the start of a cleared
-- buffer and std::reverse over the whole of it make of a number.
use morfeusz.Base.{
  ℕ, zero, suc, ◌+◌, ◌-◌, ◌*◌, ◌^◌, ◌<◌, ◌≡◌, refl, ap, ap₂, ◌∙◌, List, [], ◌∷◌, ◌++◌, reverse,
  reverse-append, reverse-cons, some, arith, length, drop, replicate, length-replicate,
  length-append, length-reverse, le→leb, le_value, le_value-append,
}
use morfeusz.Srp.{OpenSsl, IsOpenSsl, fill, reversed_buffer}

drop-replicate : (n m : ℕ) → drop n (replicate m 0) ≡ replicate {A = ℕ} (m - n) 0
drop-replicate zero m = ground arith
drop-replicate (suc n) zero = ground arith
drop-replicate (suc n) (suc m) = ground (arith, drop-replicate n m)

replicate_last : (n : ℕ) → replicate n 0 ++ 0 ∷ [] ≡ replicate {A = ℕ} (suc n) 0
replicate_last zero = refl
replicate_last (suc n) = ap (◌∷◌ 0) (replicate_last n)

zero_add : (n : ℕ) → 0 + n ≡ n
zero_add n = omega arith

reverse-replicate : (n : ℕ) → reverse (replicate n 0) ≡ replicate {A = ℕ} n 0
reverse-replicate zero = refl
reverse-replicate (suc n) =
    reverse-cons 0 (replicate n 0)
    ∙ ap (λ xs. xs ++ 0 ∷ []) (reverse-replicate n)
    ∙ replicate_last n

le_value-replicate : (n : ℕ) → le_value (replicate n 0) ≡ 0
unfolding le_value
le_value-replicate zero = refl
le_value-replicate (suc n) = omega (arith, le_value-replicate n)

module _ (o : OpenSsl) (laws : IsOpenSsl o) where
  reversed_buffer_bytes :
      (n x : ℕ)
      → x < 256 ^ n
      → reversed_buffer o n x ≡ some (replicate (n - length (o.bn2bin x)) 0 ++ reverse (o.bn2bin x))
  unfolding reversed_buffer fill
  reversed_buffer_bytes n x h =
      let bs = o.bn2bin x in
      rw (length-replicate {A = ℕ} n 0, le→leb (length bs) n (laws.bn2bin_length x n h))
        (ap some (
          reverse-append bs (drop (length bs) (replicate n 0))
          ∙ ap (λ ys. reverse ys ++ reverse bs) (drop-replicate (length bs) n)
          ∙ ap (λ ys. ys ++ reverse bs) (reverse-replicate (n - length bs))))

  -- A number that fits the buffer is written, and the buffer, read as the little-endian number
  -- that it is meant to be, is the number times 256 for every byte that the number is shorter.
  pub reversed_buffer_lem :
      (n x : ℕ)
      → x < 256 ^ n
      → (buf : List ℕ) × (reversed_buffer o n x ≡ some buf)
        × (length buf ≡ n)
        × (le_value buf ≡ 256 ^ (n - length (o.bn2bin x)) * x)
  reversed_buffer_lem n x h =
      let bs = o.bn2bin x in
      let zs = replicate {A = ℕ} (n - length bs) 0 in
      (
        zs ++ reverse bs,
        reversed_buffer_bytes n x h,
        omega (
          arith,
          length-append zs (reverse bs),
          length-replicate {A = ℕ} (n - length bs) 0,
          length-reverse bs,
          laws.bn2bin_length x n h,
        ),
        le_value-append zs (reverse bs)
            ∙ ap (λ z. z + 256 ^ length zs * le_value (reverse bs))
                (le_value-replicate (n - length bs))
            ∙ zero_add (256 ^ length zs * le_value (reverse bs))
            ∙ ap₂ (λ l y. 256 ^ l * y) (length-replicate {A = ℕ} (n - length bs) 0)
                (laws.bn2bin_lem x),
      )
