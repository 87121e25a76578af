-- ===== src/ByteBuffer/Append.antt =====
-- What the appending operations of common/ByteBuffer.h leave in the buffer, and that the reads
-- of the same header give it back.
use morfeusz.Base.{
  ℕ, suc, ◌+◌, ◌-◌, ◌^◌, ◌≤◌, ◌<◌, ◌≡◌, refl, sym, ap, ◌∙◌, inl, inr, List, [], ◌∷◌, ◌++◌,
  append_assoc, append-nil, Option, some, ◌>>=◌, ltb, Bool-cases, lt→ltb, le→ltb, arith, length,
  take, drop, replicate, take_all, drop_all, take-append_length, drop-append_length, length-append,
  length-take, length-drop, length-replicate, le_bytes, length-le_bytes,
}
use morfeusz.Endian.{Host, endian_convert-store, load-endian_convert}
use morfeusz.ByteBuffer.{
  ByteBuffer, resize_to, write_at, block, size, append_bytes, append, append_string, append_buffer,
  read_at,
}

-- A buffer that is written at its end.
abbrev pub filled : List ℕ → ℕ → ByteBuffer
filled bs r = record { storage = bs; rpos = r; wpos = length bs }

pub length-resize_to : (n : ℕ) (xs : List ℕ) → length (resize_to n xs) ≡ n
unfolding resize_to
length-resize_to n xs = omega (
  arith,
  length-append (take n xs) (replicate (n - length xs) 0),
  length-take n xs,
  length-replicate {A = ℕ} (n - length xs) 0,
)

pub length-write_at :
    (xs : List ℕ) (pos : ℕ) (src : List ℕ)
    → pos + length src ≤ length xs
    → length (write_at xs pos src) ≡ length xs
unfolding write_at
length-write_at xs pos src h = omega (
  arith,
  length-append (take pos xs) (src ++ drop (pos + length src) xs),
  length-append src (drop (pos + length src) xs),
  length-take pos xs,
  length-drop (pos + length src) xs,
)

take-append_below : (n : ℕ) (xs ys : List ℕ) → n ≡ length xs → take n (xs ++ ys) ≡ xs
take-append_below n xs ys e = rw e (take-append_length xs ys)

drop-append_below : (n : ℕ) (xs ys : List ℕ) → n ≡ length xs → drop n (xs ++ ys) ≡ ys
drop-append_below n xs ys e = rw e (drop-append_length xs ys)

-- What memcpy put there is read there.
pub block-write_at :
    (xs : List ℕ) (pos : ℕ) (src : List ℕ)
    → pos + length src ≤ length xs
    → block (write_at xs pos src) pos (length src) ≡ src
unfolding block write_at
block-write_at xs pos src h =
    rw
      (drop-append_below pos (take pos xs) (src ++ drop (pos + length src) xs)
        (omega (arith, length-take pos xs)))
      (take-append_length src _)

write_at_end :
    (bs src : List ℕ) → write_at (resize_to (length bs + length src) bs) (length bs) src ≡ bs ++ src
unfolding write_at resize_to
write_at_end bs src =
    rw
      (
        take_all (length bs + length src) bs (omega arith),
        take-append_length bs (replicate (length bs + length src - length bs) 0),
        drop_all (length bs + length src) (bs ++ replicate (length bs + length src - length bs) 0) (
            omega (
              arith,
              length-append bs (replicate {A = ℕ} (length bs + length src - length bs) 0),
              length-replicate {A = ℕ} (length bs + length src - length bs) 0,
            )),
      )
      (ap (◌++◌ bs) (append-nil src))

-- At the end of the buffer an append adds the bytes, as long as the buffer is below the limit.
pub append_bytes-filled :
    (bs src : List ℕ) (r : ℕ)
    → length bs < 10000000
    → append_bytes src (filled bs r) ≡ some (filled (bs ++ src) r)
unfolding append_bytes
append_bytes-filled bs [] r h = ap (λ s. some (filled s r)) (sym (append-nil bs))
append_bytes-filled bs (c ∷ src) r h =
    rw
      (
        lt→ltb (length bs) (length bs + suc (length src)) (omega arith),
        lt→ltb (length bs) 10000000 h,
        write_at_end bs (c ∷ src),
        sym (length-append bs (c ∷ src)),
      )
      (ground arith)

-- `f` appends exactly `bs`, at the end of any buffer that stays below the limit.
abbrev pub Writes : (ByteBuffer → Option ByteBuffer) → List ℕ → Type 0
Writes f bs =
    (ys : List ℕ) (r : ℕ)
    → length ys + length bs < 10000000
    → f (filled ys r) ≡ some (filled (ys ++ bs) r)

pub append_bytes-Writes : (src : List ℕ) → Writes (append_bytes src) src
append_bytes-Writes src ys r h = append_bytes-filled ys src r (omega arith)

-- An integer is appended as its little-endian bytes, whatever the machine.
pub append-Writes : (host : Host) (n v : ℕ) → Writes (append host n v) (le_bytes n v)
unfolding append
append-Writes host n v ys r h =
    rw ((endian_convert-store host n v).0) (append_bytes-Writes (le_bytes n v) ys r h)

pub Writes-bind :
    (f g : ByteBuffer → Option ByteBuffer) (xs zs : List ℕ)
    → Writes f xs
    → Writes g zs
    → Writes (λ b. f b >>= g) (xs ++ zs)
Writes-bind f g xs zs hf hg ys r h =
    rw (hf ys r (omega (arith, length-append xs zs)), ◌>>=◌)
      (hg (ys ++ xs) r (omega (arith, length-append xs zs, length-append ys xs))
        ∙ ap (λ s. some (filled s r)) (append_assoc ys xs zs))

pub append_string-Writes :
    (host : Host) (text : List ℕ) → Writes (append_string host text) (text ++ 0 ∷ [])
unfolding append_string
append_string-Writes host text =
    Writes-bind (append_bytes text) (append host 1 0) text (0 ∷ []) (append_bytes-Writes text)
      zero_byte
  where
    zero_byte : Writes (append host 1 0) (0 ∷ [])
    zero_byte = unfold le_bytes in append-Writes host 1 0

pub Writes-nil : Writes (λ b. some b) []
Writes-nil ys r h = ap (λ s. some (filled s r)) (sym (append-nil ys))

pub append_buffer-Writes : (other : ByteBuffer) → Writes (append_buffer other) other.storage
unfolding append_buffer
append_buffer-Writes other ys r h = cases other.storage refl
  where
    cases :
        (s : List ℕ)
        → other.storage ≡ s
        → append_buffer other (filled ys r) ≡ some (filled (ys ++ other.storage) r)
    cases [] e = rw e (Writes-nil ys r (omega (arith, ap length e)))
    cases (c ∷ s) e =
        rw e (ground (arith, append_bytes-Writes (c ∷ s) ys r (omega (arith, ap length e))))

-- What an append of at least one byte does, wherever the write position stands.
append_bytes_inv :
    (src : List ℕ) (b b' : ByteBuffer)
    → 0 < length src
    → append_bytes src b ≡ some b'
    → (block b'.storage b.wpos (length src) ≡ src)
      × (b'.wpos ≡ b.wpos + length src)
      × (b'.rpos ≡ b.rpos)
      × (b.wpos + length src ≤ size b')
unfolding append_bytes
append_bytes_inv src b b' pos e = elim (Bool-cases (ltb (size b) (b.wpos + length src))) [
  | inl grows ↦
      finish (resize_to (b.wpos + length src) b.storage)
        (omega (arith, length-resize_to (b.wpos + length src) b.storage)) (ground arith)
  | inr fits ↦ finish b.storage (ground arith) (ground arith)
]
  where
    finish :
        (g : List ℕ)
        → b.wpos + length src ≤ length g
        → b' ≡ record b { storage = write_at g b.wpos src; wpos = b.wpos + length src }
        → (block b'.storage b.wpos (length src) ≡ src)
          × (b'.wpos ≡ b.wpos + length src)
          × (b'.rpos ≡ b.rpos)
          × (b.wpos + length src ≤ size b')
    finish g h q =
        rw q
          (block-write_at g b.wpos src h, refl, refl, omega (arith, length-write_at g b.wpos src h))

-- A value is read back at the place where it was appended, on any machine, wherever the write
-- position stood.
pub read_at-append :
    (host : Host) (n v : ℕ) (b b' : ByteBuffer)
    → 0 < n
    → v < 256 ^ n
    → append host n v b ≡ some b'
    → (read_at host b.wpos n b' ≡ some v) × (b'.wpos ≡ b.wpos + n) × (b'.rpos ≡ b.rpos)
unfolding append read_at
read_at-append host n v b b' pos fits e = ground (
  arith,
  append_bytes_inv (le_bytes n v) b b' (omega (arith, length-le_bytes n v))
      (rw (← (endian_convert-store host n v).0) e),
  length-le_bytes n v,
  load-endian_convert host n v fits,
)

-- An integer is appended as its little-endian bytes, wherever the write position stands.
pub append-le_bytes :
    (host : Host) (n v : ℕ) (b : ByteBuffer) → append host n v b ≡ append_bytes (le_bytes n v) b
unfolding append
append-le_bytes host n v b = rw ((endian_convert-store host n v).0)

-- Two bytes written over the first two of a buffer.
pub append_front :
    (host : Host) (v x y : ℕ) (rest : List ℕ) (r : ℕ)
    → length rest < 9999998
    → append host 2 v (record { storage = x ∷ y ∷ rest; rpos = r; wpos = 0 })
      ≡ some (record { storage = le_bytes 2 v ++ rest; rpos = r; wpos = 2 })
unfolding append_bytes le_bytes write_at
append_front host v x y rest r h =
    rw
      (
        append-le_bytes host 2 v,
        le→ltb (suc (suc (length rest))) 2 (omega arith),
        lt→ltb (suc (suc (length rest))) 10000000 (omega arith),
      )
      refl

-- Two bytes written at offset two of an empty buffer.
pub append_gap :
    (host : Host) (v : ℕ)
    → append host 2 v (record { storage = []; rpos = 0; wpos = 2 })
      ≡ some (record { storage = 0 ∷ 0 ∷ le_bytes 2 v; rpos = 0; wpos = 4 })
unfolding append_bytes le_bytes write_at resize_to
append_gap host v = rw (append-le_bytes host 2 v) refl
