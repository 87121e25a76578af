-- ===== src/SqliteResultSet/Shifted.antt =====
-- database/SQLite/SQLiteResultSet.cpp: which column the getters read.
use morfeusz.Base.{
  ℕ, ◌^◌, ◌<◌, ◌≡◌, Bool, ◌&&◌, List, [], some, ltb, if◌then◌else◌, length, get_or, u8, u16, u32,
}
use morfeusz.MySqlResultSet.{Reading}
use morfeusz.SqliteResultSet.{
  Library, ResultSet, get_int32, get_uint32, get_uint8, get_uint16, get_int8, get_int16, get_double,
  get_float, get_int64, get_uint64,
}

-- What SQLite holds in a column: its 64-bit integer, the int32 of its double, and its text.
pub record Cell : Type 0 where
  pub number : ℕ
  pub double : ℕ
  pub text : List ℕ

abbrev pub blank : Cell
blank = record { number = 0; double = 0; text = [] }

-- The library gives the columns of a row, counted from 0.
pub record IsRow {W : Type 0} (library : Library W) (w : W) (row : List Cell) : Type 0 where
  pub count : library.column_count w ≡ length row
  pub int : (i : ℕ) → i < length row → library.column_int w i ≡ u32 (get_or row i blank).number
  pub int64 : (i : ℕ) → i < length row → library.column_int64 w i ≡ (get_or row i blank).number
  pub double : (i : ℕ) → i < length row → library.column_double w i ≡ (get_or row i blank).double
  pub bytes : (i : ℕ) → i < length row → library.column_bytes w i ≡ length (get_or row i blank).text
  pub text : (i : ℕ) → i < length row → library.column_text w i ≡ some (get_or row i blank).text

-- The getters of numbers, and the casts of the column that they are to give.
pub data Getter : Type 0 where
  int8 uint8 int16 uint16 int32 uint32 float int64 uint64 double : Getter

abbrev pub meant : Getter → Cell → ℕ
meant Getter.int8 c = u8 (u32 c.number)
meant Getter.uint8 c = u8 (u32 c.number)
meant Getter.int16 c = u16 (u32 c.number)
meant Getter.uint16 c = u16 (u32 c.number)
meant Getter.int32 c = u32 c.number
meant Getter.uint32 c = u32 (u32 c.number)
meant Getter.float c = u32 (u32 c.number)
meant Getter.int64 c = c.number
meant Getter.uint64 c = c.number
meant Getter.double c = c.double

abbrev pub is_positive : Cell → Bool
is_positive c = ltb 0 (u32 c.number) && ltb (u32 c.number) (2 ^ 31)

-- The column behind the one with index `idx` of the interface, whose first is 1; there is none behind
-- the last.
abbrev pub behind : {A : Type 0} → List Cell → ℕ → (Cell → A) → Reading A
behind row idx f =
    if ltb idx (length row) then Reading.value (f (get_or row idx blank)) else Reading.overrun

module _ {W : Type 0} (library : Library W) where
  abbrev pub get_with : Getter → ℕ → ResultSet → W → Reading ℕ
  get_with Getter.int8 = get_int8 library
  get_with Getter.uint8 = get_uint8 library
  get_with Getter.int16 = get_int16 library
  get_with Getter.uint16 = get_uint16 library
  get_with Getter.int32 = get_int32 library
  get_with Getter.uint32 = get_uint32 library
  get_with Getter.float = get_float library
  get_with Getter.int64 = get_int64 library
  get_with Getter.uint64 = get_uint64 library
  get_with Getter.double = get_double library
