-- ===== src/MySqlResultSet/Fetched.antt =====
-- database/MySQL/MySQLPreparedResultSet.cpp: what the getters give of a fetched row.
use morfeusz.Base.{
  Bool, ◌^◌, ℕ, ◌+◌, ◌≤◌, ◌<◌, ◌≡◌, refl, ◌∙◌, false, List, [], ◌∷◌, ◌++◌, some, arith, ltb, ◌==◌,
  length, take, drop, get_elem?, length-append, length-take, length-drop, Yields, Yields-bind,
  Yields-result, not, ◌&&◌, ◌||◌,
}
use morfeusz.Endian.{Host}
use morfeusz.MySqlResultSet.{
  Field, Column, ResultSet, Cell, Fetch, Reading, fill_bind_result, new_result_set, store_cell,
  store_cells, next, check_validity, get_number, get_bool, get_string, get_uint8, get_int8,
  get_uint16, get_int16, get_uint32, get_int32, get_float, get_uint64, get_int64, get_double,
}
use morfeusz.MySqlResultSet.Stored.{
  Fits, Holds, AllHold, AllSmall, Wide, text_of, number_of, store_cells-get_elem?,
  fill_bind_result-AllHold, AllHold-get_elem?, length-store_cells, stored-text, stored-number,
}

abbrev IsNew : List Field → ResultSet → Type 0
IsNew fields s = (s.row_position ≡ 0) × AllHold fields s.bind_result

new_result_set-IsNew :
    (time_size rows : ℕ) (fields : List Field)
    → AllSmall fields
    → Yields (IsNew fields) (new_result_set time_size fields rows)
unfolding new_result_set
new_result_set-IsNew time_size rows fields a =
    Yields-bind (AllHold fields) (IsNew fields) (fill_bind_result time_size fields)
      (λ cs. some (record { row_position = 0; num_rows = rows; bind_result = cs }))
      (fill_bind_result-AllHold time_size fields a) (λ cs k. (refl, k))

-- The getters of numbers, with the bytes that they read.
pub data Getter : Type 0 where
  uint8 int8 uint16 int16 uint32 int32 float uint64 int64 double : Getter

abbrev pub width : Getter → ℕ
width Getter.uint8 = 1
width Getter.int8 = 1
width Getter.uint16 = 2
width Getter.int16 = 2
width Getter.uint32 = 4
width Getter.int32 = 4
width Getter.float = 4
width Getter.uint64 = 8
width Getter.int64 = 8
width Getter.double = 8

abbrev pub get_with : Host → Getter → ℕ → ResultSet → Reading ℕ
get_with host Getter.uint8 = get_uint8 host
get_with host Getter.int8 = get_int8 host
get_with host Getter.uint16 = get_uint16 host
get_with host Getter.int16 = get_int16 host
get_with host Getter.uint32 = get_uint32 host
get_with host Getter.int32 = get_int32 host
get_with host Getter.float = get_float host
get_with host Getter.uint64 = get_uint64 host
get_with host Getter.int64 = get_int64 host
get_with host Getter.double = get_double host

get_with-get_number :
    (host : Host) (g : Getter) (idx : ℕ) (s : ResultSet)
    → get_with host g idx s ≡ get_number host (width g) idx s
unfolding get_uint8 get_int8 get_uint16 get_int16 get_uint32 get_int32 get_float get_uint64
    get_int64 get_double
get_with-get_number host Getter.uint8 idx s = refl
get_with-get_number host Getter.int8 idx s = refl
get_with-get_number host Getter.uint16 idx s = refl
get_with-get_number host Getter.int16 idx s = refl
get_with-get_number host Getter.uint32 idx s = refl
get_with-get_number host Getter.int32 idx s = refl
get_with-get_number host Getter.float idx s = refl
get_with-get_number host Getter.uint64 idx s = refl
get_with-get_number host Getter.int64 idx s = refl
get_with-get_number host Getter.double idx s = refl

-- Every getter throws.
abbrev pub AllThrow : Host → ℕ → ResultSet → Type 0
AllThrow host idx s =
    ((g : Getter) → get_with host g idx s ≡ Reading.thrown)
    × (get_bool host idx s ≡ Reading.thrown)
    × (get_string idx s ≡ Reading.thrown)

thrown_first : (host : Host) (idx : ℕ) (s : ResultSet) → s.row_position ≡ 0 → AllThrow host idx s
unfolding get_string get_bool get_number check_validity
thrown_first host idx s e =
    let none_yet : (not (idx == 0 || ltb (length s.bind_result) idx) && not (s.row_position == 0))
        ≡ false =
      ground arith in
    let number : get_number host 1 idx s ≡ Reading.thrown = rw none_yet refl in
    (
      λ g. get_with-get_number host g idx s ∙ rw none_yet refl,
      rw (get_bool, number) refl,
      rw none_yet refl,
    )

-- Whether the first byte of a value is above 0 as an int8.
abbrev pub is_positive : ℕ → Bool
is_positive n = ltb 0 n && ltb n (2 ^ 7)

get_bool-get_number :
    (host : Host) (idx n : ℕ) (s : ResultSet)
    → get_number host 1 idx s ≡ Reading.value n
    → get_bool host idx s ≡ Reading.value (is_positive n)
unfolding get_bool
get_bool-get_number host idx n s e = rw (get_bool, e) refl

-- The calls of next(), whatever they fetch.
pub nexts : List Fetch → ResultSet → ResultSet
nexts [] s = s
nexts (fetched ∷ later) s = nexts later (next fetched s).1

length-stored :
    (bytes buffer : List ℕ)
    → length (take (length buffer) bytes ++ drop (length bytes) buffer) ≡ length buffer
length-stored bytes buffer = omega (
  arith,
  length-append (take (length buffer) bytes) (drop (length bytes) buffer),
  length-take (length buffer) bytes,
  length-drop (length bytes) buffer,
)

store_cell-Holds :
    (field : Field) (c : Column) (x : Cell) → Holds field c → Holds field (store_cell c x)
unfolding store_cell
store_cell-Holds field c Cell.null_cell h = h
store_cell-Holds field c (Cell.cell bytes) h = omega (arith, length-stored bytes c.buffer)

store_cells-AllHold :
    (fields : List Field) (columns : List Column) (cells : List Cell)
    → AllHold fields columns
    → AllHold fields (store_cells columns cells)
unfolding store_cells
store_cells-AllHold [] [] cells h = tt
store_cells-AllHold [] (c ∷ columns) cells h = absurd cc
store_cells-AllHold (f ∷ fields) [] cells h = absurd cc
store_cells-AllHold (f ∷ fields) (c ∷ columns) [] h = h
store_cells-AllHold (f ∷ fields) (c ∷ columns) (x ∷ cells) h =
    (store_cell-Holds f c x h.0, store_cells-AllHold fields columns cells h.1)

next-AllHold :
    (fields : List Field) (fetched : Fetch) (s : ResultSet)
    → AllHold fields s.bind_result
    → AllHold fields (next fetched s).1.bind_result
unfolding next
next-AllHold fields (Fetch.row cells) s h = store_cells-AllHold fields s.bind_result cells h
next-AllHold fields (Fetch.truncated cells) s h = store_cells-AllHold fields s.bind_result cells h
next-AllHold fields Fetch.no_data s h = h
next-AllHold fields Fetch.fetch_error s h = h

nexts-AllHold :
    (fields : List Field) (before : List Fetch) (s : ResultSet)
    → AllHold fields s.bind_result
    → AllHold fields (nexts before s).bind_result
unfolding nexts
nexts-AllHold fields [] s h = h
nexts-AllHold fields (fetched ∷ before) s h =
    nexts-AllHold fields before (next fetched s).1 (next-AllHold fields fetched s h)

length-text_of :
    (field : Field) (c : Column) (x : Cell)
    → Holds field c
    → Fits field x
    → length (text_of x) ≤ length c.buffer
length-text_of field c Cell.null_cell h k = omega arith
length-text_of field c (Cell.cell bytes) h k = omega arith

-- Of a new result set whose fields all have a greatest length below 2 ^ 32 - 1: before the first call of
-- next() every getter throws; and when a row has been fetched, whatever was fetched before, getString
-- gives the text of a value that is no longer than its field's greatest length, every getter of numbers
-- gives the number of its first bytes if it has as many, and 0 for NULL, whose text is empty, and
-- getBool whether the first byte is above 0 as an int8.
pub readings-next :
    (host : Host) (time_size rows : ℕ) (fields : List Field) (s : ResultSet) (before : List Fetch)
    (cells : List Cell) (i : ℕ) (field : Field) (x : Cell)
    → AllSmall fields
    → new_result_set time_size fields rows ≡ some s
    → get_elem? fields i ≡ some field
    → get_elem? cells i ≡ some x
    → Fits field x
    → AllThrow host (i + 1) s
      × (get_string (i + 1) (next (Fetch.row cells) (nexts before s)).1 ≡ Reading.value (text_of x))
      × ((g : Getter)
          → Wide (width g) x
          → get_with host g (i + 1) (next (Fetch.row cells) (nexts before s)).1
            ≡ Reading.value (number_of host (width g) x))
      × (Wide 1 x
          → get_bool host (i + 1) (next (Fetch.row cells) (nexts before s)).1
            ≡ Reading.value (is_positive (number_of host 1 x)))
unfolding next
readings-next host time_size rows fields s before cells i field x small made at given fits =
    let start =
      Yields-result (IsNew fields) (new_result_set time_size fields rows) s
        (new_result_set-IsNew time_size rows fields small) made in
    let last = nexts before s in
    let (c, column, holds, below) =
      AllHold-get_elem? fields last.bind_result i field (nexts-AllHold fields before s start.1)
        at in
    let r = (next (Fetch.row cells) last).1 in
    let inside : i < length r.bind_result =
      omega (arith, length-store_cells last.bind_result cells) in
    let stored = store_cells-get_elem? last.bind_result cells i c x column given in
    let short : length (text_of x) ≤ length c.buffer = length-text_of field c x holds fits in
    (
      thrown_first host (i + 1) s start.0,
      stored-text host r i c inside (omega arith) x stored short,
      λ g wide.
          get_with-get_number host g (i + 1) r
          ∙ stored-number host r i c inside (omega arith) (width g) x stored short wide,
      λ wide.
          get_bool-get_number host (i + 1) (number_of host 1 x) r
            (stored-number host r i c inside (omega arith) 1 x stored short wide),
    )
