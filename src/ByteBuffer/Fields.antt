-- ===== src/ByteBuffer/Fields.antt =====
-- common/ByteBuffer.h: a chain of `<<`, field by field.
use morfeusz.Base.{
  ℕ, Bool, true, false, List, [], ◌∷◌, ◌++◌, Option, some, ◌>>=◌, if◌then◌else◌, arith, length,
  length-append, le_bytes, append-nil, append_assoc, ap,
}
use morfeusz.Endian.{Host}
use morfeusz.ByteBuffer.{ByteBuffer, append, append_string}
use morfeusz.ByteBuffer.Append.{
  Writes, append-Writes, append_string-Writes, Writes-bind, Writes-nil,
}

-- What `<<` writes: an integer of so many bytes, or a text with its zero.
pub data Field : Type 0 where
  int : ℕ → ℕ → Field
  text : List ℕ → Field

unfoldable pub bytes : Field → List ℕ
bytes (Field.int n v) = le_bytes n v
bytes (Field.text t) = t ++ 0 ∷ []

unfoldable pub all_bytes : List Field → List ℕ
all_bytes [] = []
all_bytes (f ∷ fs) = bytes f ++ all_bytes fs

unfoldable pub put_field : Host → Field → ByteBuffer → Option ByteBuffer
put_field host (Field.int n v) b = append host n v b
put_field host (Field.text t) b = append_string host t b

unfoldable pub put_fields : Host → List Field → ByteBuffer → Option ByteBuffer
put_fields host [] b = some b
put_fields host (f ∷ []) b = put_field host f b
put_fields host (f ∷ g ∷ fs) b = put_field host f b >>= put_fields host (g ∷ fs)

put_field-Writes : (host : Host) (f : Field) → Writes (put_field host f) (bytes f)
unfolding put_field bytes
put_field-Writes host (Field.int n v) = append-Writes host n v
put_field-Writes host (Field.text t) = append_string-Writes host t

pub put_fields-Writes : (host : Host) (fs : List Field) → Writes (put_fields host fs) (all_bytes fs)
unfolding put_fields all_bytes
put_fields-Writes host [] ys r h = Writes-nil ys r h
put_fields-Writes host (f ∷ []) ys r h =
    rw (append-nil (bytes f))
      (put_field-Writes host f ys r (omega (arith, length-append (bytes f) [])))
put_fields-Writes host (f ∷ g ∷ fs) ys r h =
    Writes-bind (put_field host f) (put_fields host (g ∷ fs)) (bytes f) (all_bytes (g ∷ fs))
      (put_field-Writes host f) (λ ys r h. put_fields-Writes host (g ∷ fs) ys r h) ys r h

pub Writes-if :
    (b : Bool) (f g : ByteBuffer → Option ByteBuffer) (xs zs : List ℕ)
    → Writes f xs
    → Writes g zs
    → Writes (λ pkt. if b then f pkt else g pkt) (if b then xs else zs)
Writes-if true f g xs zs hf hg ys r h = hf ys r h
Writes-if false f g xs zs hf hg ys r h = hg ys r h

-- A chain that goes on with `k`.
unfoldable pub put_then :
    Host → List Field → (ByteBuffer → Option ByteBuffer) → ByteBuffer → Option ByteBuffer
unfolding put_field
put_then host [] k b = k b
put_then host (f ∷ fs) k b = put_field host f b >>= put_then host fs k

pub put_then-Writes :
    (host : Host) (fs : List Field) (k : ByteBuffer → Option ByteBuffer) (ks : List ℕ)
    → Writes k ks
    → Writes (put_then host fs k) (all_bytes fs ++ ks)
unfolding put_then all_bytes
put_then-Writes host [] k ks w ys r h = w ys r h
put_then-Writes host (f ∷ fs) k ks w ys r h =
    let assoc = append_assoc (bytes f) (all_bytes fs) ks in
    rw assoc (
      Writes-bind (put_field host f) (put_then host fs k) (bytes f) (all_bytes fs ++ ks)
        (put_field-Writes host f) (λ ys r h. put_then-Writes host fs k ks w ys r h) ys r
        (omega (arith, ap length assoc)))
