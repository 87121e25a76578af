-- ===== src/ByteBuffer/Text.antt =====
-- common/ByteBuffer.h, `>>` into a std::string: the loop always ends, and what it gives.
use morfeusz.Base.{
  ℕ, zero, suc, ◌+◌, ◌≤◌, ◌<◌, ◌≡◌, refl, ap, min, inl, inr, List, [], ◌∷◌, ◌++◌, append_assoc,
  append-nil, some, ◌>>=◌, ◌==◌, Bool-cases, if◌then◌else◌, lt→ltb, le→ltb, le→leb, arith, length,
  drop, length-drop,
}
use morfeusz.Endian.{Host, load-endian_convert_byte}
use morfeusz.ByteBuffer.{ByteBuffer, size, block, read_at, read, read_string_loop, read_string}

-- The bytes before the first zero.
pub until_zero : List ℕ → List ℕ
until_zero [] = []
until_zero (c ∷ cs) = if c == 0 then [] else c ∷ until_zero cs

length-until_zero : (cs : List ℕ) → length (until_zero cs) ≤ length cs
unfolding until_zero
length-until_zero [] = omega arith
length-until_zero (c ∷ cs) = ground (arith, length-until_zero cs)

drop_next : (n : ℕ) (xs : List ℕ) (c : ℕ) (cs : List ℕ) → drop n xs ≡ c ∷ cs → drop (n + 1) xs ≡ cs
drop_next zero [] c cs e = cc
drop_next zero (x ∷ xs) c cs e = ground arith
drop_next (suc n) [] c cs e = cc
drop_next (suc n) (x ∷ xs) c cs e = ground (arith, drop_next n xs c cs e)

read_one :
    (host : Host) (b : ByteBuffer) (c : ℕ) (cs : List ℕ)
    → drop b.rpos b.storage ≡ c ∷ cs
    → read host 1 b ≡ some (c, record b { rpos = b.rpos + 1 })
unfolding read read_at block
read_one host b c cs e =
    rw
      (
        e,
        le→leb (b.rpos + 1) (size b) (omega (arith, length-drop b.rpos b.storage, ap length e)),
        load-endian_convert_byte host c,
      )
      refl

read_string_loop_lem :
    (host : Host) (cs : List ℕ) (fuel : ℕ) (acc : List ℕ) (b : ByteBuffer)
    → drop b.rpos b.storage ≡ cs
    → b.rpos ≤ size b
    → length cs < fuel
    → read_string_loop host fuel acc b
      ≡ some (
        acc ++ until_zero cs,
        record b { rpos = min (size b) (b.rpos + length (until_zero cs) + 1) },
      )
unfolding read_string_loop until_zero
read_string_loop_lem host [] zero acc b e h l = absurd (omega arith)
read_string_loop_lem host (c ∷ cs) zero acc b e h l = absurd (omega arith)
read_string_loop_lem host [] (suc fuel) acc b e h l =
    let at_end : size b ≤ b.rpos = omega (arith, length-drop b.rpos b.storage, ap length e) in
    rw (le→ltb b.rpos (size b) at_end) (ground (arith, append-nil acc))
read_string_loop_lem host (c ∷ cs) (suc fuel) acc b e h l =
    let more : b.rpos < size b = omega (arith, length-drop b.rpos b.storage, ap length e) in
    let rest =
      read_string_loop_lem host cs fuel (acc ++ c ∷ []) (record b { rpos = b.rpos + 1 })
        (drop_next b.rpos b.storage c cs e) (omega arith) (omega arith) in
    rw (lt→ltb b.rpos (size b) more, read_one host b c cs e, ◌>>=◌)
      (elim (Bool-cases (c == 0)) [
        | inl stop ↦ rw stop (ground (arith, append-nil acc))
        | inr go ↦ rw (go, rest) (ground (arith, append_assoc acc (c ∷ []) (until_zero cs)))
      ])

-- Reading a text takes the bytes up to the first zero or the end of the buffer, moves past
-- the zero, and never fails.
pub read_string_lem :
    (host : Host) (b : ByteBuffer)
    → b.rpos ≤ size b
    → read_string host b
      ≡ some (
        until_zero (drop b.rpos b.storage),
        record b { rpos = min (size b) (b.rpos + length (until_zero (drop b.rpos b.storage)) + 1) },
      )
unfolding read_string
read_string_lem host b h =
    read_string_loop_lem host (drop b.rpos b.storage) (suc (size b)) [] b refl h
      (omega (arith, length-drop b.rpos b.storage))
