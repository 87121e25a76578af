-- ===== src/Endian.antt =====
-- common/Util.h, namespace ByteConverter, and EndianConvert and EndianConvertReverse with it.
-- An object of `n` bytes is the list of the bytes it occupies in memory, lowest address first.
use morfeusz.Base.{
  ℕ, zero, suc, ◌^◌, ◌≤◌, ◌<◌, ◌≡◌, refl, sym, ap, ◌∙◌, List, [], ◌∷◌, ◌++◌, reverse, reverse-cons,
  reverse-append, reverse-reverse, append_assoc, append-nil, arith, length, get_or, set, take, drop,
  take-set, drop-set, take-suc, take_all, drop_all, length-set, length-reverse, le_bytes, le_value,
  length-le_bytes, le_value-le_bytes, le_bytes-le_value, AllBytes, AllBytes-reverse,
}

-- The byte order of the machine the daemons are built for (MORPHEUS_ENDIAN).
pub data Host : Type 0 where
  little big : Host

-- std::swap(*a, *b) on two bytes of memory.
pub swap_bytes : List ℕ → ℕ → ℕ → List ℕ
swap_bytes m i j = set (set m i (get_or m j 0)) j (get_or m i 0)

-- `convert` of the tail of the memory.
abbrev on_tail : (List ℕ → List ℕ) → List ℕ → List ℕ
on_tail f [] = []
on_tail f (x ∷ xs) = x ∷ f xs

-- convert<T>(val): swaps the outer bytes and goes on with the inner T - 2.
pub convert : ℕ → List ℕ → List ℕ
convert zero m = m
convert (suc zero) m = m
convert (suc (suc t)) m = on_tail (convert t) (swap_bytes m 0 (suc t))

-- EndianConvert(T&) and EndianConvertReverse(T&), for an object of `n` bytes.
unfoldable pub endian_convert : Host → ℕ → List ℕ → List ℕ
endian_convert little n m = m
endian_convert big n m = convert n m

pub endian_convert_reverse : Host → ℕ → List ℕ → List ℕ
endian_convert_reverse little n m = convert n m
endian_convert_reverse big n m = m

-- How the machine keeps an unsigned integer of `n` bytes in memory, and what it reads there.
unfoldable pub store : Host → ℕ → ℕ → List ℕ
store little n v = le_bytes n v
store big n v = reverse (le_bytes n v)

unfoldable pub load : Host → List ℕ → ℕ
load little m = le_value m
load big m = le_value (reverse m)

convert_step :
    (x : ℕ) (r : List ℕ) (t : ℕ)
    → t < length r
    → (convert t (set r t x) ≡ reverse (take t (set r t x)) ++ drop t (set r t x))
    → convert (suc (suc t)) (x ∷ r) ≡ reverse (x ∷ take (suc t) r) ++ drop (suc t) r
unfolding convert swap_bytes
convert_step x r t h ih =
    rw
      (
        ih,
        take-set r t x,
        drop-set r t x h,
        take-suc r t 0 h,
        reverse-cons x (take t r ++ get_or r t 0 ∷ []),
        reverse-append (take t r),
      )
      (ap (◌∷◌ (get_or r t 0)) (sym (append_assoc (reverse (take t r)) _ _)))

-- The swaps of `convert` reverse the first T bytes and leave the rest of the memory alone.
pub convert-reverse :
    (t : ℕ) (m : List ℕ) → t ≤ length m → convert t m ≡ reverse (take t m) ++ drop t m
unfolding convert
convert-reverse zero m h = refl
convert-reverse (suc zero) [] h = absurd (omega arith)
convert-reverse (suc zero) (x ∷ r) h = refl
convert-reverse (suc (suc t)) [] h = absurd (omega arith)
convert-reverse (suc (suc t)) (x ∷ r) h =
    convert_step x r t (omega arith)
      (convert-reverse t (set r t x) (omega (arith, length-set r t x)))

convert_whole : (m : List ℕ) (n : ℕ) → length m ≡ n → convert n m ≡ reverse m
convert_whole m n e =
    rw (convert-reverse n m (omega arith), take_all n m (omega arith), drop_all n m (omega arith))
      (append-nil (reverse m))

pub length-store : (host : Host) (n v : ℕ) → length (store host n v) ≡ n
unfolding store
length-store little n v = length-le_bytes n v
length-store big n v = length-reverse (le_bytes n v) ∙ length-le_bytes n v

-- On either kind of machine EndianConvert makes an integer's bytes little-endian, and
-- EndianConvertReverse makes them big-endian.
pub endian_convert-store :
    (host : Host) (n v : ℕ)
    → (endian_convert host n (store host n v) ≡ le_bytes n v)
      × (endian_convert_reverse host n (store host n v) ≡ reverse (le_bytes n v))
unfolding endian_convert endian_convert_reverse store
endian_convert-store little n v = (refl, convert_whole (le_bytes n v) n (length-le_bytes n v))
endian_convert-store big n v = (
  convert_whole (reverse (le_bytes n v)) n (length-reverse (le_bytes n v) ∙ length-le_bytes n v)
      ∙ reverse-reverse (le_bytes n v),
  refl,
)

-- Reading back what EndianConvert wrote, after EndianConvert again, gives the number.
pub load-endian_convert :
    (host : Host) (n v : ℕ) → v < 256 ^ n → load host (endian_convert host n (le_bytes n v)) ≡ v
unfolding load endian_convert
load-endian_convert little n v h = le_value-le_bytes n v h
load-endian_convert big n v h =
    rw (convert_whole (le_bytes n v) n (length-le_bytes n v), reverse-reverse (le_bytes n v))
      (le_value-le_bytes n v h)

-- A single byte reads as itself.
pub load-endian_convert_byte :
    (host : Host) (c : ℕ) → load host (endian_convert host 1 (c ∷ [])) ≡ c
unfolding load endian_convert convert le_value
load-endian_convert_byte little c = omega arith
load-endian_convert_byte big c = omega arith

-- A number kept in given bytes has those bytes, or their mirror image on a big-endian machine.
pub le_bytes-load :
    (m : List ℕ) (n : ℕ)
    → AllBytes m
    → length m ≡ n
    → (le_bytes n (load little m) ≡ m) × (le_bytes n (load big m) ≡ reverse m)
unfolding load
le_bytes-load m n h e = (
  rw (← e) (le_bytes-le_value m h),
  rw (← e, ← length-reverse m) (le_bytes-le_value (reverse m) (AllBytes-reverse m h)),
)

pub load-store : (host : Host) (n v : ℕ) → v < 256 ^ n → load host (store host n v) ≡ v
unfolding store load
load-store Host.little n v h = le_value-le_bytes n v h
load-store Host.big n v h = rw (reverse-reverse (le_bytes n v)) (le_value-le_bytes n v h)
