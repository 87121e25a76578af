-- ===== src/ByteBuffer/Reading.antt =====
-- common/ByteBuffer.h: what `>>` takes of a buffer, piece by piece.
use morfeusz.Base.{
  ℕ, ◌+◌, ◌^◌, ◌<◌, ◌≡◌, refl, sym, ap, ap₂, ◌∙◌, true, List, [], ◌++◌, append_assoc, Option, some,
  ◌>>=◌, arith, length, leb, le→leb, length-append, take-append_length, drop-append_length,
  le_bytes, length-le_bytes,
}
use morfeusz.Endian.{Host, load-endian_convert}
use morfeusz.ByteBuffer.{ByteBuffer, read, read_at, block}

-- A buffer of `before`, `bs` and `after` that is read from the start or the end of `bs` on.
abbrev pub reading : List ℕ → List ℕ → List ℕ → ℕ → ℕ → ByteBuffer
reading before bs after r w = record { storage = before ++ (bs ++ after); rpos = r; wpos = w }

-- Where `bs` comes next, `get` takes exactly that and gives `a`.
abbrev pub Reads : {A : Type 0} → (ByteBuffer → Option (A × ByteBuffer)) → A → List ℕ → Type 0
Reads get a bs =
    (before after : List ℕ) (w : ℕ)
    → get (reading before bs after (length before) w)
      ≡ some (a, reading before bs after (length before + length bs) w)

block-append :
    (before bs after : List ℕ) (n : ℕ)
    → length bs ≡ n
    → block (before ++ (bs ++ after)) (length before) n ≡ bs
unfolding block
block-append before bs after n e =
    rw (← e, drop-append_length before (bs ++ after)) (take-append_length bs after)

-- An integer is read from its little-endian bytes.
pub read-Reads : (host : Host) (n v : ℕ) → v < 256 ^ n → Reads (read host n) v (le_bytes n v)
unfolding read read_at
read-Reads host n v h before after w =
    let bs = le_bytes n v in
    let room : leb (length before + n) (length (before ++ (bs ++ after))) ≡ true = le→leb _ _ (
      omega
        (arith, length-append before (bs ++ after), length-append bs after, length-le_bytes n v)) in
    let here = block-append before bs after n (length-le_bytes n v) in
    rw (room, here, load-endian_convert host n v h, length-le_bytes n v) refl

-- Two pieces that are read one after the other.
next_part :
    (before xs zs after : List ℕ) (r w : ℕ)
    → reading before (xs ++ zs) after r w ≡ reading before xs (zs ++ after) r w
next_part before xs zs after r w =
    ap (λ l. record { storage = before ++ l; rpos = r; wpos = w }) (append_assoc xs zs after)

step_over :
    (before xs zs after : List ℕ) (w : ℕ)
    → reading before xs (zs ++ after) (length before + length xs) w
      ≡ reading (before ++ xs) zs after (length (before ++ xs)) w
step_over before xs zs after w =
    ap₂ (λ l n. record { storage = l; rpos = n; wpos = w })
      (sym (append_assoc before xs (zs ++ after))) (sym (length-append before xs))

all_over :
    (before xs zs after : List ℕ) (w : ℕ)
    → reading (before ++ xs) zs after (length (before ++ xs) + length zs) w
      ≡ reading before (xs ++ zs) after (length before + length (xs ++ zs)) w
all_over before xs zs after w =
    ap₂ (λ l n. record { storage = l; rpos = n; wpos = w })
      (append_assoc before xs (zs ++ after) ∙ ap (◌++◌ before) (sym (append_assoc xs zs after)))
      (omega (arith, length-append before xs, length-append xs zs))

pub Reads-bind :
    {A C : Type 0} (f : ByteBuffer → Option (A × ByteBuffer))
    (g : A → ByteBuffer → Option (C × ByteBuffer)) (a : A) (c : C) (xs zs : List ℕ)
    → Reads f a xs
    → Reads (g a) c zs
    → Reads (λ b. f b >>= λ r. g r.0 r.1) c (xs ++ zs)
Reads-bind f g a c xs zs hf hg before after w =
    rw (next_part before xs zs after (length before) w, hf before (zs ++ after) w, ◌>>=◌)
      (ap (g a) (step_over before xs zs after w)
        ∙ hg (before ++ xs) after w
        ∙ ap (λ b. some (c, b)) (all_over before xs zs after w))

pub Reads-done : {A : Type 0} (a : A) → Reads (λ b. some (a, b)) a []
Reads-done a before after w = ap (λ n. some (a, reading before [] after n w)) (omega arith)
