-- ===== src/ByteBuffer/Typed/Calls.antt =====
-- common/ByteBuffer.h: what the reads of a buffer give, and its operations in any order.
use native.Mathlib.Nat.{pow-suc}
use morfeusz.Base.{
  Yields, Yields-bind, ℕ, zero, suc, ◌+◌, ◌^◌, ◌≤◌, ◌<◌, ◌≡◌, sym, ap, ◌∙◌, inl, inr, List, [], ◌∷◌,
  ◌++◌, subst, ltb, leb, ◌==◌, Bool-cases, arith, length, take, drop, length-take, length-drop,
  le_value, le_bytes, le_bytes-le_value, AllBytes, AllBytes-append, AllBytes-take, AllBytes-drop,
}
use morfeusz.Endian.{Host, endian_convert, load, load-endian_convert}
use morfeusz.ByteBuffer.{
  ByteBuffer, size, block, read_at, read, read_bytes, read_string_loop, read_string,
}
use morfeusz.ByteBuffer.Typed.{IsBuffer}

le_value-below : (bs : List ℕ) → AllBytes bs → le_value bs < 256 ^ length bs
unfolding le_value
le_value-below [] h = omega arith
le_value-below (c ∷ bs) h = omega (arith, pow-suc 256 (length bs), le_value-below bs h.1, h.0)

-- The number that is read, where it is not past the end.
pub read_at-below :
    (host : Host) (pos n : ℕ) (b : ByteBuffer)
    → AllBytes b.storage
    → Yields (λ v. (v < 256 ^ n) × (pos + n ≤ size b)) (read_at host pos n b)
unfolding read_at block
read_at-below host pos n b h = elim (Bool-cases (leb (pos + n) (size b))) [
  | inl e ↦
      (let here = take n (drop pos b.storage) in
        let bytes : AllBytes here = AllBytes-take n _ (AllBytes-drop pos b.storage h) in
        let whole : length here ≡ n =
          ground (arith, length-take n (drop pos b.storage), length-drop pos b.storage) in
        let below : le_value here < 256 ^ n =
          subst (λ k. le_value here < 256 ^ k) whole (le_value-below here bytes) in
        let form : le_bytes n (le_value here) ≡ here =
          subst (λ k. le_bytes k (le_value here) ≡ here) whole (le_bytes-le_value here bytes) in
        let same : load host (endian_convert host n here) ≡ le_value here =
          ap (λ m. load host (endian_convert host n m)) (sym form)
          ∙ load-endian_convert host n (le_value here) below in
        rw (e, same) (below, ground arith))
  | inr e ↦ rw e tt
]

-- A number of the type's width, and the buffer behind it.
abbrev pub Number : ℕ → ℕ × ByteBuffer → Type 0
Number n r = (r.0 < 256 ^ n) × IsBuffer r.1

abbrev pub Text : List ℕ × ByteBuffer → Type 0
Text r = AllBytes r.0 × IsBuffer r.1

advanced :
    (b : ByteBuffer) (n : ℕ)
    → IsBuffer b
    → b.rpos + n ≤ size b
    → IsBuffer (record b { rpos = b.rpos + n })
advanced b n is inside = record {
  bytes = is.bytes;
  rpos_inside = inside;
  wpos_inside = is.wpos_inside;
}

pub read-IsBuffer :
    (host : Host) (n : ℕ) (b : ByteBuffer) → IsBuffer b → Yields (Number n) (read host n b)
unfolding read
read-IsBuffer host n b is =
    Yields-bind _ (Number n) (read_at host b.rpos n b) _ (read_at-below host b.rpos n b is.bytes)
      (λ v h. (h.0, advanced b n is h.1))

pub read_bytes-IsBuffer : (len : ℕ) (b : ByteBuffer) → IsBuffer b → Yields Text (read_bytes len b)
unfolding read_bytes block
read_bytes-IsBuffer len b is = elim (Bool-cases (leb (b.rpos + len) (size b))) [
  | inl e ↦ rw e (
    AllBytes-take len _ (AllBytes-drop b.rpos b.storage is.bytes),
    advanced b len is (ground arith),
  )
  | inr e ↦ rw e tt
]

read_string_loop-IsBuffer :
    (host : Host) (fuel : ℕ) (value : List ℕ) (b : ByteBuffer)
    → AllBytes value
    → IsBuffer b
    → Yields Text (read_string_loop host fuel value b)
unfolding read_string_loop
read_string_loop-IsBuffer host zero value b h is = tt
read_string_loop-IsBuffer host (suc fuel) value b h is = elim (Bool-cases (ltb b.rpos (size b))) [
  | inr e ↦ rw e (h, is)
  | inl e ↦ rw e (
      Yields-bind (Number 1) Text (read host 1 b) _ (read-IsBuffer host 1 b is) (λ r k.
        elim (Bool-cases (r.0 == 0)) [
          | inl f ↦ rw f (h, k.1)
          | inr f ↦ rw f (
              read_string_loop-IsBuffer host fuel (value ++ r.0 ∷ []) r.1
                (AllBytes-append value _ h (omega (arith, k.0), tt)) k.1)
        ]))
]

pub read_string-IsBuffer :
    (host : Host) (b : ByteBuffer) → IsBuffer b → Yields Text (read_string host b)
unfolding read_string
read_string-IsBuffer host b is = read_string_loop-IsBuffer host (suc (size b)) [] b tt is
