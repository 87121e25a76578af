-- ===== src/ByteBuffer/Containers/RoundTrip.antt =====
-- common/ByteBuffer.h: containers are read as they were written.
use morfeusz.Base.{
  ℕ, ◌+◌, ◌^◌, ◌<◌, ◌≡◌, refl, sym, ap, ap₂, ◌∙◌, List, [], ◌∷◌, ◌++◌, append-nil, Option, some,
  ◌>>=◌, arith, length, u32, length-append, le_bytes,
}
use morfeusz.Endian.{Host}
use morfeusz.ByteBuffer.{ByteBuffer, append, read}
use morfeusz.ByteBuffer.Reading.{Reads, read-Reads, Reads-bind, Reads-done}
use morfeusz.ByteBuffer.Append.{filled, Writes, Writes-bind, Writes-nil, append-Writes}
use morfeusz.ByteBuffer.Containers.{put_all, write_sequence, get_all, read_sequence}

-- The bytes of the elements, and those of a container: its size before them.
module _ {A : Type 0} (bytes : A → List ℕ) where
  unfoldable pub all_bytes : List A → List ℕ
  all_bytes [] = []
  all_bytes (a ∷ v) = bytes a ++ all_bytes v

  unfoldable pub sequence_bytes : List A → List ℕ
  unfolding all_bytes
  sequence_bytes v = le_bytes 4 (u32 (length v)) ++ all_bytes v

  put_all-Writes :
      (put : A → ByteBuffer → Option ByteBuffer) (v : List A)
      → ((a : A) → Writes (put a) (bytes a))
      → Writes (put_all put v) (all_bytes v)
  unfolding put_all all_bytes
  put_all-Writes put [] h ys r k = Writes-nil ys r k
  put_all-Writes put (a ∷ v) h ys r k =
      Writes-bind (put a) (put_all put v) (bytes a) (all_bytes v) (h a) (put_all-Writes put v h) ys
        r k

  pub write_sequence-Writes :
      (host : Host) (put : A → ByteBuffer → Option ByteBuffer) (v : List A)
      → ((a : A) → Writes (put a) (bytes a))
      → Writes (write_sequence put host v) (sequence_bytes v)
  unfolding write_sequence sequence_bytes
  write_sequence-Writes host put v h =
      Writes-bind (append host 4 (u32 (length v))) (put_all put v) (le_bytes 4 (u32 (length v)))
        (all_bytes v) (append-Writes host 4 (u32 (length v))) (put_all-Writes put v h)

  module _ (get : ByteBuffer → Option (A × ByteBuffer)) where
    abbrev pub AllReads : List A → Type 0
    AllReads [] = Unit {0}
    AllReads (a ∷ v) = Reads get a (bytes a) × AllReads v

    get_all-Reads : (v : List A) → AllReads v → Reads (get_all get (length v)) v (all_bytes v)
    unfolding get_all all_bytes
    get_all-Reads [] h = Reads-done []
    get_all-Reads (a ∷ v) h =
        Reads-bind get (λ t b. get_all get (length v) b >>= λ r. some (t ∷ r.0, r.1)) a (a ∷ v)
          (bytes a) (all_bytes v) h.0
          (λ before after w. rw (get_all-Reads v h.1 before after w) refl)

    pub read_sequence-Reads :
        (host : Host) (v : List A)
        → length v < 2 ^ 32
        → AllReads v
        → Reads (read_sequence get host) v (sequence_bytes v)
    unfolding read_sequence sequence_bytes
    read_sequence-Reads host v few h =
        let size : u32 (length v) ≡ length v = omega arith in
        rw size (
          Reads-bind (read host 4) (λ n b. get_all get n b) (length v) v (le_bytes 4 (length v))
            (all_bytes v) (read-Reads host 4 (length v) (omega arith)) (get_all-Reads v h))

abbrev pub AllBelow : ℕ → List ℕ → Type 0
AllBelow k [] = Unit {0}
AllBelow k (a ∷ v) = (a < k) × AllBelow k v

AllReads-AllBelow :
    (host : Host) (n : ℕ) (v : List ℕ)
    → AllBelow (256 ^ n) v
    → AllReads (le_bytes n) (read host n) v
AllReads-AllBelow host n [] h = tt
AllReads-AllBelow host n (a ∷ v) h = (read-Reads host n a h.0, AllReads-AllBelow host n v h.1)

-- A vector or list of fewer than 2 ^ 32 integers of `n` bytes that is written at the end of a buffer,
-- below the buffer's limit, is read back from there, on either kind of machine, and then the whole
-- buffer has been read.
pub read_sequence-write_sequence :
    (host : Host) (n : ℕ) (v ys : List ℕ)
    → length v < 2 ^ 32
    → AllBelow (256 ^ n) v
    → length ys + length (sequence_bytes (le_bytes n) v) < 10000000
    → (b : ByteBuffer) × (write_sequence (append host n) host v (filled ys (length ys)) ≡ some b)
      × (read_sequence (read host n) host b ≡ some (v, record b { rpos = length b.storage }))
read_sequence-write_sequence host n v ys few below room =
    let packed = sequence_bytes (le_bytes n) v in
    let whole = ap (λ l. ys ++ l) (append-nil packed) in
    let same =
      ap (λ l. record { storage = l; rpos = length ys; wpos = length (ys ++ packed) }) whole in
    (
      filled (ys ++ packed) (length ys),
      write_sequence-Writes (le_bytes n) host (append host n) v (append-Writes host n) ys
          (length ys) room,
      ap (read_sequence (read host n) host) (sym same)
          ∙ read_sequence-Reads (le_bytes n) (read host n) host v few
              (AllReads-AllBelow host n v below) ys [] (length (ys ++ packed))
          ∙ ap₂ (λ l k. some (v, record { storage = l; rpos = k; wpos = length (ys ++ packed) }))
              whole (sym (length-append ys packed)),
    )
