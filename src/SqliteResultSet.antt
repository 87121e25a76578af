-- ===== src/SqliteResultSet.antt =====
-- database/SQLite/SQLiteResultSet.cpp: the rows of a statement that is stepped through. The library is a
-- parameter.
pub mod Shifted
use morfeusz.Base.{
  ℕ, ◌+◌, ◌^◌, Bool, true, false, not, ◌&&◌, ◌||◌, List, Option, none, some, ltb, ◌==◌,
  if◌then◌else◌, take, length, [], u8, u16, u32, leb,
}
use morfeusz.MySqlResultSet.{Reading}

-- What sqlite3_step returns.
pub data Stepped : Type 0 where
  row done step_error : Stepped

-- The library's calls on a statement. Columns are counted from 0, integers are their two's complement,
-- and a double is given as the int32 that it becomes; a text is a pointer, NULL for a NULL.
pub record Library (W : Type 0) : Type 0 where
  pub column_count : W → ℕ
  pub step : W → Stepped × W
  pub column_int : W → ℕ → ℕ
  pub column_int64 : W → ℕ → ℕ
  pub column_double : W → ℕ → ℕ
  pub column_bytes : W → ℕ → ℕ
  pub column_text : W → ℕ → Option (List ℕ)

pub record ResultSet : Type 0 where
  pub row_position : ℕ
  pub num_rows : ℕ
  pub num_fields : ℕ

-- What next() returns or throws.
pub data Advance : Type 0 where
  at_row at_end thrown : Advance

unfoldable pub check_validity : ℕ → ResultSet → Bool
check_validity idx s = not (idx == 0 || ltb s.num_fields idx) && not (s.row_position == 0)

pub is_first : ResultSet → Bool
is_first s = s.row_position == 1

rows_count : ResultSet → ℕ
rows_count s = s.num_rows

-- What a getter makes of another's value.
abbrev pub map_reading : {A B : Type 0} → (A → B) → Reading A → Reading B
map_reading f Reading.thrown = Reading.thrown
map_reading f Reading.overrun = Reading.overrun
map_reading f (Reading.value a) = Reading.value (f a)

-- std::string(pointer, length), which faults on a null pointer with a length.
unfoldable pub string_of : Option (List ℕ) → ℕ → Reading (List ℕ)
string_of none len = if len == 0 then Reading.value [] else Reading.overrun
string_of (some text) len =
    if leb len (length text) then Reading.value (take len text) else Reading.overrun

module _ {W : Type 0} (library : Library W) where
  -- Both constructors.
  new_result_set : W → ResultSet
  new_result_set w = record { row_position = 0; num_rows = 0; num_fields = library.column_count w }

  next : ResultSet → W → Advance × ResultSet × W
  next s w =
      let (stepped, after) = library.step w in
      elim stepped [
        | Stepped.row ↦ (
          Advance.at_row,
          record s { row_position = s.row_position + 1; num_rows = s.num_rows + 1 },
          after,
        )
        | Stepped.done ↦ (Advance.at_end, s, after)
        | Stepped.step_error ↦ (Advance.thrown, s, after)
      ]

  -- sqlite3_column_* with the index as it was given; past the last column the result is undefined.
  unfoldable pub column : {A : Type 0} → (W → ℕ → A) → ℕ → ResultSet → W → Reading A
  unfolding check_validity
  column read idx s w =
      if check_validity idx s
      then (if ltb idx (library.column_count w)
          then Reading.value (read w idx)
          else Reading.overrun)
      else Reading.thrown

  unfoldable pub get_int32 : ℕ → ResultSet → W → Reading ℕ
  unfolding column
  get_int32 idx s w = column library.column_int idx s w

  unfoldable pub get_uint32 : ℕ → ResultSet → W → Reading ℕ
  unfolding get_int32
  get_uint32 idx s w = map_reading u32 (get_int32 idx s w)

  unfoldable pub get_uint8 : ℕ → ResultSet → W → Reading ℕ
  unfolding get_int32
  get_uint8 idx s w = map_reading u8 (get_int32 idx s w)

  unfoldable pub get_uint16 : ℕ → ResultSet → W → Reading ℕ
  unfolding get_int32
  get_uint16 idx s w = map_reading u16 (get_int32 idx s w)

  pub get_int8 : ℕ → ResultSet → W → Reading ℕ
  unfolding get_int32
  get_int8 idx s w = map_reading u8 (get_int32 idx s w)

  pub get_int16 : ℕ → ResultSet → W → Reading ℕ
  unfolding get_int32
  get_int16 idx s w = map_reading u16 (get_int32 idx s w)

  unfoldable pub get_bool : ℕ → ResultSet → W → Reading Bool
  unfolding get_int32
  get_bool idx s w = map_reading (λ n. ltb 0 n && ltb n (2 ^ 31)) (get_int32 idx s w)

  -- The double of an int32.
  pub get_double : ℕ → ResultSet → W → Reading ℕ
  unfolding column
  get_double idx s w = column library.column_double idx s w

  -- The float of the integer's bytes.
  pub get_float : ℕ → ResultSet → W → Reading ℕ
  unfolding get_uint32
  get_float idx s w = get_uint32 idx s w

  unfoldable pub get_int64 : ℕ → ResultSet → W → Reading ℕ
  unfolding column
  get_int64 idx s w = column library.column_int64 idx s w

  pub get_uint64 : ℕ → ResultSet → W → Reading ℕ
  unfolding get_int64
  get_uint64 idx s w = get_int64 idx s w

  unfoldable pub get_string : ℕ → ResultSet → W → Reading (List ℕ)
  unfolding column string_of
  get_string idx s w = elim (column library.column_bytes idx s w) [
    | Reading.thrown ↦ Reading.thrown
    | Reading.overrun ↦ Reading.overrun
    | Reading.value len ↦ string_of (library.column_text w idx) len
  ]
