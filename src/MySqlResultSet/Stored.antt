-- ===== src/MySqlResultSet/Stored.antt =====
-- database/MySQL/MySQLPreparedResultSet.cpp: what the buffers of the columns hold, and what the getters read
-- in them.
use morfeusz.Base.{
  ℕ, zero, suc, ◌+◌, ◌-◌, ◌^◌, ◌≤◌, ◌<◌, ◌≡◌, refl, ap, true, false, List, [], ◌∷◌, ◌++◌, some,
  ◌>>=◌, arith, leb, ◌==◌, length, take, drop, get_elem?, length-append, length-replicate, take_all,
  take-append_length, Option-cases, inl, inr, eq_of_some, Yields, Yields-bind, Bool-cases, u32,
  subst,
}
use morfeusz.Endian.{Host, load}
use morfeusz.MySqlResultSet.{
  Field, Column, ResultSet, Cell, Reading, fill_column, fill_bind_result, store_cell, store_cells,
  check_validity, get_number, get_string, type_to_size,
}

-- No value is longer than the longest, which the library counts.
abbrev pub Fits : Field → Cell → Type 0
Fits field Cell.null_cell = Unit {0}
Fits field (Cell.cell bytes) = length bytes ≤ field.max_length

pub store_cells-get_elem? :
    (columns : List Column) (cells : List Cell) (i : ℕ) (c : Column) (x : Cell)
    → get_elem? columns i ≡ some c
    → get_elem? cells i ≡ some x
    → get_elem? (store_cells columns cells) i ≡ some (store_cell c x)
unfolding store_cells
store_cells-get_elem? [] cells i c x h k = absurd cc
store_cells-get_elem? (d ∷ columns) [] i c x h k = absurd cc
store_cells-get_elem? (d ∷ columns) (y ∷ cells) zero c x h k = cc
store_cells-get_elem? (d ∷ columns) (y ∷ cells) (suc i) c x h k =
    store_cells-get_elem? columns cells i c x h k

-- A column's buffer holds the longest value of its field.
abbrev pub Holds : Field → Column → Type 0
Holds field c = field.max_length ≤ length c.buffer

abbrev pub AllHold : List Field → List Column → Type 0
AllHold [] [] = Unit {0}
AllHold [] (c ∷ columns) = true ≡ false
AllHold (field ∷ fields) [] = true ≡ false
AllHold (field ∷ fields) (c ∷ columns) = Holds field c × AllHold fields columns

-- Every field's greatest length is below 2 ^ 32 - 1.
abbrev pub AllSmall : List Field → Type 0
AllSmall [] = Unit {0}
AllSmall (field ∷ fields) = (field.max_length + 1 < 2 ^ 32) × AllSmall fields

fill_column-Holds :
    (time_size : ℕ) (field : Field)
    → field.max_length + 1 < 2 ^ 32
    → Yields (Holds field) (fill_column time_size field)
unfolding fill_column
fill_column-Holds time_size field small =
    elim (Option-cases (type_to_size time_size field.field_type)) [
      | inl f ↦ rw f tt
      | inr (len, f) ↦ rw f (elim (Bool-cases (len == 0)) [
        | inl e ↦ rw e (omega (arith, length-replicate {A = ℕ} (u32 (field.max_length + 1)) 0))
        | inr e ↦ rw e (omega (arith, length-replicate {A = ℕ} (u32 field.max_length) 0))
      ])
    ]

pub fill_bind_result-AllHold :
    (time_size : ℕ) (fields : List Field)
    → AllSmall fields
    → Yields (AllHold fields) (fill_bind_result time_size fields)
unfolding fill_bind_result
fill_bind_result-AllHold time_size [] a = tt
fill_bind_result-AllHold time_size (f ∷ fields) a =
    Yields-bind (Holds f) (AllHold (f ∷ fields)) (fill_column time_size f)
      (λ c. fill_bind_result time_size fields >>= λ cs. some (c ∷ cs))
      (fill_column-Holds time_size f a.0)
      (λ c h.
        Yields-bind (AllHold fields) (AllHold (f ∷ fields)) (fill_bind_result time_size fields)
          (λ cs. some (c ∷ cs)) (fill_bind_result-AllHold time_size fields a.1) (λ cs k. (h, k)))

pub AllHold-get_elem? :
    (fields : List Field) (columns : List Column) (i : ℕ) (field : Field)
    → AllHold fields columns
    → get_elem? fields i ≡ some field
    → (c : Column) × (get_elem? columns i ≡ some c) × Holds field c × (i < length columns)
AllHold-get_elem? [] columns i field a k = absurd cc
AllHold-get_elem? (f ∷ fields) [] i field a k = absurd cc
AllHold-get_elem? (f ∷ fields) (c ∷ columns) zero field a k =
    (c, refl, subst (λ g. Holds g c) (eq_of_some k) a.0, omega arith)
AllHold-get_elem? (f ∷ fields) (c ∷ columns) (suc i) field a k =
    let (d, at, holds, below) = AllHold-get_elem? fields columns i field a.1 k in
    (d, at, holds, omega arith)

pub length-store_cells :
    (columns : List Column) (cells : List Cell)
    → length (store_cells columns cells) ≡ length columns
unfolding store_cells
length-store_cells [] cells = refl
length-store_cells (c ∷ columns) [] = refl
length-store_cells (c ∷ columns) (x ∷ cells) = ap suc (length-store_cells columns cells)

-- What getString and a getter of `n` bytes are to give of a value.
abbrev pub text_of : Cell → List ℕ
text_of Cell.null_cell = []
text_of (Cell.cell bytes) = bytes

abbrev pub number_of : Host → ℕ → Cell → ℕ
number_of host n Cell.null_cell = 0
number_of host n (Cell.cell bytes) = load host (take n bytes)

-- A value has as many bytes as a getter reads, if it is not NULL.
abbrev pub Wide : ℕ → Cell → Type 0
Wide n Cell.null_cell = Unit {0}
Wide n (Cell.cell bytes) = n ≤ length bytes

valid_index :
    (i : ℕ) (s : ResultSet)
    → i < length s.bind_result
    → 0 < s.row_position
    → check_validity (i + 1) s ≡ true
unfolding check_validity
valid_index i s below later = ground arith

-- A buffer with room for the bytes begins with them.
stored_bytes :
    (bytes buffer : List ℕ)
    → length bytes ≤ length buffer
    → take (length buffer) bytes ++ drop (length bytes) buffer ≡ bytes ++ drop (length bytes) buffer
stored_bytes bytes buffer fits =
    ap (λ l. l ++ drop (length bytes) buffer) (take_all (length buffer) bytes fits)

take-append_short : (n : ℕ) (xs ys : List ℕ) → n ≤ length xs → take n (xs ++ ys) ≡ take n xs
take-append_short zero xs ys h = refl
take-append_short (suc n) [] ys h = absurd (omega arith)
take-append_short (suc n) (x ∷ xs) ys h = ap (◌∷◌ x) (take-append_short n xs ys (omega arith))

-- The getters of a column that a value was stored in.
module _ (host : Host) (s : ResultSet) (i : ℕ) (c : Column) (below : i < length s.bind_result)
    (later : 0 < s.row_position) where
  pub stored-text :
      (x : Cell)
      → get_elem? s.bind_result i ≡ some (store_cell c x)
      → length (text_of x) ≤ length c.buffer
      → get_string (i + 1) s ≡ Reading.value (text_of x)
  unfolding get_string store_cell
  stored-text Cell.null_cell at fits =
      let place : i + 1 - 1 ≡ i = omega arith in rw (valid_index i s below later, place, at) refl
  stored-text (Cell.cell bytes) at fits =
      let place : i + 1 - 1 ≡ i = omega arith in
      let rest = drop (length bytes) c.buffer in
      let room : leb (length bytes) (length (bytes ++ rest)) ≡ true =
        ground (arith, length-append bytes rest) in
      rw
        (
          valid_index i s below later,
          place,
          at,
          stored_bytes bytes c.buffer fits,
          room,
          take-append_length bytes rest,
        )
        refl

  pub stored-number :
      (n : ℕ) (x : Cell)
      → get_elem? s.bind_result i ≡ some (store_cell c x)
      → length (text_of x) ≤ length c.buffer
      → Wide n x
      → get_number host n (i + 1) s ≡ Reading.value (number_of host n x)
  unfolding get_number store_cell
  stored-number n Cell.null_cell at fits wide =
      let place : i + 1 - 1 ≡ i = omega arith in rw (valid_index i s below later, place, at) refl
  stored-number n (Cell.cell bytes) at fits wide =
      let place : i + 1 - 1 ≡ i = omega arith in
      let rest = drop (length bytes) c.buffer in
      let room : leb n (length (bytes ++ rest)) ≡ true = ground (arith, length-append bytes rest) in
      rw
        (
          valid_index i s below later,
          place,
          at,
          stored_bytes bytes c.buffer fits,
          room,
          take-append_short n bytes rest wide,
        )
        refl
