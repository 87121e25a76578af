-- ===== src/Dbc/Cursor.antt =====
-- common/dbc/DBC_File.cpp: reading a record field by field.
use morfeusz.Base.{
  ℕ, zero, suc, ◌+◌, ◌*◌, ◌^◌, ◌≤◌, ◌<◌, ◌≡◌, refl, ap, ◌∙◌, true, false, List, [], ◌∷◌, ◌++◌,
  append_assoc, arith, length, length-append, take, drop, get_or, le_bytes, length-le_bytes,
  le_value-le_bytes, subst, leb, le→leb, u32,
}
use morfeusz.Endian.{Host, load}
use morfeusz.Dbc.{ok, DbcFile, read_uint32, read_string, text_at}
use morfeusz.Dbc.Store.{skip_fields, read_names}

abbrev pub AllU32 : List ℕ → Type 0
AllU32 [] = Unit {0}
AllU32 (v ∷ vs) = (v < 2 ^ 32) × AllU32 vs

-- The fields of a record, little-endian.
unfoldable pub encode : List ℕ → List ℕ
encode [] = []
encode (v ∷ vs) = le_bytes 4 v ++ encode vs

pub length-encode : (vs : List ℕ) → length (encode vs) ≡ 4 * length vs
unfolding encode
length-encode [] = refl
length-encode (v ∷ vs) =
    omega (arith, length-append (le_bytes 4 v) (encode vs), length-le_bytes 4 v, length-encode vs)

pub drop-append_more : (xs ys : List ℕ) (n : ℕ) → drop (length xs + n) (xs ++ ys) ≡ drop n ys
drop-append_more [] ys n = ap (λ k. drop k ys) (omega arith)
drop-append_more (x ∷ xs) ys n =
    let next : suc (length xs) + n ≡ suc (length xs + n) = omega arith in
    rw next (drop-append_more xs ys n)

-- Where the k-th field stands.
drop-encode :
    (vs post : List ℕ) (k : ℕ)
    → k < length vs
    → (rest : List ℕ) × (drop (4 * k) (encode vs ++ post) ≡ le_bytes 4 (get_or vs k 0) ++ rest)
unfolding encode
drop-encode [] post k h = absurd (omega arith)
drop-encode (v ∷ vs) post zero h = (encode vs ++ post, append_assoc (le_bytes 4 v) (encode vs) post)
drop-encode (v ∷ vs) post (suc k) h =
    let (rest, e) = drop-encode vs post k (omega arith) in
    let four : 4 * suc k ≡ length (le_bytes 4 v) + 4 * k = omega (arith, length-le_bytes 4 v) in
    (
      rest,
      rw (four, append_assoc (le_bytes 4 v) (encode vs) post)
          (drop-append_more (le_bytes 4 v) (encode vs ++ post) (4 * k) ∙ e),
    )

get_or-AllU32 : (vs : List ℕ) (k : ℕ) → AllU32 vs → get_or vs k 0 < 2 ^ 32
get_or-AllU32 [] k h = omega arith
get_or-AllU32 (v ∷ vs) zero h = h.0
get_or-AllU32 (v ∷ vs) (suc k) h = get_or-AllU32 vs k h.1

first_field :
    (v : ℕ) (rest : List ℕ) → v < 2 ^ 32 → load Host.little (take 4 (le_bytes 4 v ++ rest)) ≡ v
unfolding load le_bytes
first_field v rest h = le_value-le_bytes 4 v h

-- A file at the k-th field of a record that stands behind `pre`.
abbrev pub field : DbcFile → List ℕ → ℕ → DbcFile
field f pre k = record f { pos = length pre + 4 * k }

module _ (f : DbcFile) (pre vs post : List ℕ) (is : f.bytes ≡ pre ++ (encode vs ++ post))
    (fits : AllU32 vs) where
  pub read_uint32-field :
      (k : ℕ)
      → k < length vs
      → read_uint32 Host.little (field f pre k) ≡ ok (get_or vs k 0, field f pre (suc k))
  unfolding read_uint32
  read_uint32-field k h =
      let (rest, e) = drop-encode vs post k h in
      let here =
        ap (drop (length pre + 4 * k)) is ∙ drop-append_more pre (encode vs ++ post) (4 * k) ∙ e in
      let room : leb (length pre + 4 * k + 4) (length f.bytes) ≡ true = le→leb _ _ (
        omega (
          arith,
          ap length is,
          length-append pre (encode vs ++ post),
          length-append (encode vs) post,
          length-encode vs,
        )) in
      rw (room, here, first_field (get_or vs k 0) rest (get_or-AllU32 vs k fits))
        (ap (λ p. ok (get_or vs k 0, record f { pos = p })) (omega arith))

  module _ (four : f.field_size ≡ 4) where
    pub skip_fields-field : (n k : ℕ) → skip_fields n (field f pre k) ≡ field f pre (n + k)
    unfolding skip_fields
    skip_fields-field zero k = ap (field f pre) (omega arith)
    skip_fields-field (suc n) k =
        let next : length pre + 4 * k + f.field_size ≡ length pre + 4 * suc k =
          omega (arith, four) in
        ap (λ p. skip_fields n (record f { pos = p })) next
        ∙ skip_fields-field n (suc k)
        ∙ ap (field f pre) (omega arith)

  -- The field's number is where a text begins.
  abbrev pub HasText : ℕ → Type 0
  HasText i = (s : List ℕ) × (text_at (drop (u32 (f.data_size + get_or vs i 0)) f.bytes) ≡ ok s)

  module _ (texts : 1 < f.string_block_size) where
    read_string-field :
        (k : ℕ)
        → k < length vs
        → (text : HasText k)
        → read_string Host.little (field f pre k) ≡ ok (text.0, field f pre (suc k))
    unfolding read_string
    read_string-field k h text =
        let some_texts : leb f.string_block_size 1 ≡ false = ground arith in
        rw (some_texts, read_uint32-field k h, text.1) refl

    pub read_names-field :
        (n k : ℕ)
        → k + n ≤ length vs
        → ((i : ℕ) → i < n → HasText (k + i))
        → read_names Host.little n (field f pre k) ≡ ok (field f pre (n + k))
    unfolding read_names
    read_names-field zero k h text = ap (λ j. ok (field f pre j)) (omega arith)
    read_names-field (suc n) k h text =
        let first : k + 0 ≡ k = omega arith in
        let later : (i : ℕ) → i < n → HasText (suc k + i) = λ i l.
          let same : k + suc i ≡ suc k + i = omega arith in
          subst HasText same (text (suc i) (omega arith)) in
        rw (read_string-field k (omega arith) (subst HasText first (text 0 (omega arith)))) (
          read_names-field n (suc k) (omega arith) later
          ∙ ap (λ j. ok (field f pre j)) (omega arith))
