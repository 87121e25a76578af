-- ===== src/ByteBuffer/Typed.antt =====
-- common/ByteBuffer.h: what the writing operations of a buffer leave.
pub mod Calls
pub mod Runs
use morfeusz.Base.{
  Yields, Yields-bind, ℕ, zero, suc, ◌+◌, ◌-◌, ◌*◌, ◌^◌, ◌≤◌, ◌<◌, ◌≡◌, refl, sym, ap, ◌∙◌, inl,
  inr, List, [], ◌∷◌, ◌++◌, subst, Option, none, some, ◌>>=◌, ltb, leb, ◌==◌, Bool-cases, arith,
  length, true, false, if◌then◌else◌, take, drop, replicate, length-append, Option-cases,
  eq_of_some, length-take, length-drop, length-replicate, le_bytes, length-le_bytes, le_value,
  le_bytes-le_value, AllBytes, AllBytes-le_bytes, AllBytes-append, AllBytes-take, AllBytes-drop,
  AllBytes-replicate,
}
use morfeusz.Endian.{Host, endian_convert, store, endian_convert-store, load, load-endian_convert}
use morfeusz.ByteBuffer.{
  ByteBuffer, empty, resize_to, write_at, block, size, append_bytes, append, append_string,
  append_buffer, put_bytes, put, read_at, read, read_bytes, read_string_loop, read_string, resize,
}
use morfeusz.ByteBuffer.Append.{length-write_at, length-resize_to}

-- A vector of bytes with both positions inside it.
pub record IsBuffer (b : ByteBuffer) : Type 0 where
  pub bytes : AllBytes b.storage
  pub rpos_inside : b.rpos ≤ length b.storage
  pub wpos_inside : b.wpos ≤ length b.storage

resize_to-AllBytes : (n : ℕ) (xs : List ℕ) → AllBytes xs → AllBytes (resize_to n xs)
unfolding resize_to
resize_to-AllBytes n xs h =
    AllBytes-append (take n xs) _ (AllBytes-take n xs h) (AllBytes-replicate (n - length xs))

write_at-AllBytes :
    (xs : List ℕ) (pos : ℕ) (src : List ℕ)
    → AllBytes xs
    → AllBytes src
    → AllBytes (write_at xs pos src)
unfolding write_at
write_at-AllBytes xs pos src h k =
    AllBytes-append (take pos xs) _ (AllBytes-take pos xs h)
      (AllBytes-append src _ k (AllBytes-drop (pos + length src) xs h))

pub resize-IsBuffer : (n : ℕ) (b : ByteBuffer) → IsBuffer b → IsBuffer (resize n b)
unfolding resize
resize-IsBuffer n b is = record {
  bytes = resize_to-AllBytes n b.storage is.bytes;
  rpos_inside = omega arith;
  wpos_inside = omega arith;
}

pub put_bytes-IsBuffer :
    (pos : ℕ) (src : List ℕ) (b : ByteBuffer)
    → AllBytes src
    → IsBuffer b
    → Yields IsBuffer (put_bytes pos src b)
unfolding put_bytes
put_bytes-IsBuffer pos src b h is = elim (Bool-cases (leb (pos + length src) (size b))) [
  | inl e ↦
      (let same = length-write_at b.storage pos src (ground arith) in
        rw e (record {
          bytes = write_at-AllBytes b.storage pos src is.bytes h;
          rpos_inside = omega (arith, same, is.rpos_inside);
          wpos_inside = omega (arith, same, is.wpos_inside);
        }))
  | inr e ↦ rw e tt
]

written-IsBuffer :
    (grown src : List ℕ) (b : ByteBuffer)
    → AllBytes grown
    → AllBytes src
    → b.wpos + length src ≤ length grown
    → b.rpos ≤ length grown
    → IsBuffer (record b { storage = write_at grown b.wpos src; wpos = b.wpos + length src })
written-IsBuffer grown src b h k room inside =
    let same = length-write_at grown b.wpos src room in
    record {
      bytes = write_at-AllBytes grown b.wpos src h k;
      rpos_inside = omega (arith, same);
      wpos_inside = omega (arith, same);
    }

pub append_bytes-IsBuffer :
    (src : List ℕ) (b : ByteBuffer)
    → AllBytes src
    → IsBuffer b
    → Yields IsBuffer (append_bytes src b)
unfolding append_bytes
append_bytes-IsBuffer src b h is =
    let size_of = length-resize_to (b.wpos + length src) b.storage in
    elim (Bool-cases (length src == 0)) [
      | inl e ↦ rw e is
      | inr e ↦ elim (Bool-cases (ltb (size b) 10000000)) [
        | inr f ↦ rw (e, f) tt
        | inl f ↦ elim (Bool-cases (ltb (size b) (b.wpos + length src))) [
          | inl g ↦
              rw (e, f, g)
                (written-IsBuffer _ src b (resize_to-AllBytes _ b.storage is.bytes) h (omega arith)
                  (ground arith))
          | inr g ↦ rw (e, f, g) (written-IsBuffer _ src b is.bytes h (ground arith) is.rpos_inside)
        ]
      ]
    ]

pub integer-AllBytes : (host : Host) (n v : ℕ) → AllBytes (endian_convert host n (store host n v))
integer-AllBytes host n v = rw (endian_convert-store host n v).0 (AllBytes-le_bytes n v)

pub append-IsBuffer :
    (host : Host) (n v : ℕ) (b : ByteBuffer) → IsBuffer b → Yields IsBuffer (append host n v b)
unfolding append
append-IsBuffer host n v b is = append_bytes-IsBuffer _ b (integer-AllBytes host n v) is

pub append_string-IsBuffer :
    (host : Host) (text : List ℕ) (b : ByteBuffer)
    → AllBytes text
    → IsBuffer b
    → Yields IsBuffer (append_string host text b)
unfolding append_string
append_string-IsBuffer host text b h is =
    Yields-bind IsBuffer IsBuffer (append_bytes text b) _ (append_bytes-IsBuffer text b h is)
      (λ a k. append-IsBuffer host 1 0 a k)

pub append_buffer-IsBuffer :
    (other b : ByteBuffer) → IsBuffer other → IsBuffer b → Yields IsBuffer (append_buffer other b)
unfolding append_buffer
append_buffer-IsBuffer other b h is = elim (Bool-cases (0 == size other)) [
  | inl e ↦ rw e is
  | inr e ↦ rw e (append_bytes-IsBuffer other.storage b h.bytes is)
]
