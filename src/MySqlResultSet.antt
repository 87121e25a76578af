-- ===== src/MySqlResultSet.antt =====
-- database/MySQL/MySQLPreparedResultSet.cpp: the buffers that a result is fetched into, and the getters.
-- The client library's answers are arguments.
pub mod Stored
pub mod Fetched
use morfeusz.Base.{
  ℕ, zero, suc, ◌+◌, ◌-◌, ◌^◌, Bool, true, false, not, ◌&&◌, ◌||◌, List, [], ◌∷◌, ◌++◌, Option,
  none, some, ◌>>=◌, ltb, leb, u32, ◌==◌, if◌then◌else◌, length, take, drop, replicate, get_elem?,
}
use morfeusz.Endian.{Host, load}

-- enum_field_types; `other` are those that typeToSize does not support.
pub data ResultType : Type 0 where
  tiny short float long double longlong : ResultType
  timestamp date time datetime : ResultType
  varchar var_string string blob other : ResultType

-- `none` is an exception; `time_size` is sizeof(MYSQL_TIME).
unfoldable pub type_to_size : ℕ → ResultType → Option ℕ
type_to_size time_size ResultType.tiny = some 1
type_to_size time_size ResultType.short = some 2
type_to_size time_size ResultType.float = some 4
type_to_size time_size ResultType.long = some 4
type_to_size time_size ResultType.double = some 8
type_to_size time_size ResultType.longlong = some 8
type_to_size time_size ResultType.timestamp = some time_size
type_to_size time_size ResultType.date = some time_size
type_to_size time_size ResultType.time = some time_size
type_to_size time_size ResultType.datetime = some time_size
type_to_size time_size ResultType.varchar = some 0
type_to_size time_size ResultType.var_string = some 0
type_to_size time_size ResultType.string = some 0
type_to_size time_size ResultType.blob = some 0
type_to_size time_size ResultType.other = none

-- MYSQL_FIELD, and the MYSQL_BIND of a column with what its pointers lead to.
pub record Field : Type 0 where
  pub field_type : ResultType
  pub max_length : ℕ

pub record Column : Type 0 where
  pub buffer_type : ResultType
  pub buffer : List ℕ
  pub value_length : ℕ
  pub is_null : Bool

unfoldable pub fill_column : ℕ → Field → Option Column
unfolding type_to_size
fill_column time_size field = do
  len ← type_to_size time_size field.field_type
  some (record {
    buffer_type = field.field_type;
    buffer = replicate (if len == 0 then u32 (field.max_length + 1) else u32 field.max_length) 0;
    value_length = 0;
    is_null = false;
  })

unfoldable pub fill_bind_result : ℕ → List Field → Option (List Column)
unfolding fill_column
fill_bind_result time_size [] = some []
fill_bind_result time_size (field ∷ fields) = do
  column ← fill_column time_size field
  columns ← fill_bind_result time_size fields
  some (column ∷ columns)

-- numFields is the length of `bind_result`.
pub record ResultSet : Type 0 where
  pub row_position : ℕ
  pub num_rows : ℕ
  pub bind_result : List Column

-- The constructor's last part, for the metadata and the count of rows.
unfoldable pub new_result_set : ℕ → List Field → ℕ → Option ResultSet
unfolding fill_bind_result
new_result_set time_size fields rows = do
  columns ← fill_bind_result time_size fields
  some (record { row_position = 0; num_rows = rows; bind_result = columns })

-- A value as the server sends it: NULL, or its bytes.
pub data Cell : Type 0 where
  null_cell : Cell
  cell : List ℕ → Cell

-- What mysql_stmt_fetch returns; it fills the buffers in the first two cases.
pub data Fetch : Type 0 where
  row truncated : List Cell → Fetch
  no_data fetch_error : Fetch

-- As much of the bytes as the buffer holds, and their whole length.
unfoldable pub store_cell : Column → Cell → Column
store_cell c null_cell = record c { is_null = true }
store_cell c (cell bytes) = record c {
  buffer = take (length c.buffer) bytes ++ drop (length bytes) c.buffer;
  value_length = length bytes;
  is_null = false;
}

unfoldable pub store_cells : List Column → List Cell → List Column
unfolding store_cell
store_cells [] cells = []
store_cells (c ∷ columns) [] = c ∷ columns
store_cells (c ∷ columns) (x ∷ cells) = store_cell c x ∷ store_cells columns cells

-- next() counts a row whatever comes.
unfoldable pub next : Fetch → ResultSet → Bool × ResultSet
unfolding store_cells
next fetched s =
    let counted = record s { row_position = s.row_position + 1 } in
    elim fetched [
      | Fetch.row cells ↦ (true, record counted { bind_result = store_cells s.bind_result cells })
      | Fetch.truncated cells ↦
          (true, record counted { bind_result = store_cells s.bind_result cells })
      | Fetch.no_data ↦ (false, counted)
      | Fetch.fetch_error ↦ (false, counted)
    ]

is_first : ResultSet → Bool
is_first s = s.row_position == 1

rows_count : ResultSet → ℕ
rows_count s = s.num_rows

-- What a getter gives: an exception, an access past the buffer, or the value.
pub data Reading (A : Type 0) : Type 0 where
  thrown overrun : Reading A
  value : A → Reading A

unfoldable pub check_validity : ℕ → ResultSet → Bool
check_validity idx s = not (idx == 0 || ltb (length s.bind_result) idx) && not (s.row_position == 0)

-- How the getters of numbers begin, and the `n` bytes that they read.
unfoldable pub get_number : Host → ℕ → ℕ → ResultSet → Reading ℕ
unfolding check_validity load
get_number host n idx s =
    if check_validity idx s
    then elim (get_elem? s.bind_result (idx - 1)) [
      | none ↦ Reading.overrun
      | some c ↦
          if c.is_null
          then Reading.value 0
          else if leb n (length c.buffer)
          then Reading.value (load host (take n c.buffer))
          else Reading.overrun
    ]
    else Reading.thrown

-- The signed getters, getDouble and getFloat give the same bytes another type.
unfoldable pub get_uint8 : Host → ℕ → ResultSet → Reading ℕ
unfolding get_number
get_uint8 host idx s = get_number host 1 idx s

unfoldable pub get_int8 : Host → ℕ → ResultSet → Reading ℕ
unfolding get_number
get_int8 host idx s = get_number host 1 idx s

unfoldable pub get_uint16 : Host → ℕ → ResultSet → Reading ℕ
unfolding get_number
get_uint16 host idx s = get_number host 2 idx s

unfoldable pub get_int16 : Host → ℕ → ResultSet → Reading ℕ
unfolding get_number
get_int16 host idx s = get_number host 2 idx s

unfoldable pub get_uint32 : Host → ℕ → ResultSet → Reading ℕ
unfolding get_number
get_uint32 host idx s = get_number host 4 idx s

unfoldable pub get_int32 : Host → ℕ → ResultSet → Reading ℕ
unfolding get_number
get_int32 host idx s = get_number host 4 idx s

unfoldable pub get_float : Host → ℕ → ResultSet → Reading ℕ
unfolding get_number
get_float host idx s = get_number host 4 idx s

unfoldable pub get_uint64 : Host → ℕ → ResultSet → Reading ℕ
unfolding get_number
get_uint64 host idx s = get_number host 8 idx s

unfoldable pub get_int64 : Host → ℕ → ResultSet → Reading ℕ
unfolding get_number
get_int64 host idx s = get_number host 8 idx s

unfoldable pub get_double : Host → ℕ → ResultSet → Reading ℕ
unfolding get_number
get_double host idx s = get_number host 8 idx s

-- getInt8(idx) > 0
unfoldable pub get_bool : Host → ℕ → ResultSet → Reading Bool
unfolding get_number
get_bool host idx s = elim (get_number host 1 idx s) [
  | Reading.thrown ↦ Reading.thrown
  | Reading.overrun ↦ Reading.overrun
  | Reading.value n ↦ Reading.value (ltb 0 n && ltb n (2 ^ 7))
]

-- std::string(buffer, *length)
unfoldable pub get_string : ℕ → ResultSet → Reading (List ℕ)
unfolding check_validity
get_string idx s =
    if check_validity idx s
    then elim (get_elem? s.bind_result (idx - 1)) [
      | none ↦ Reading.overrun
      | some c ↦
          if c.is_null
          then Reading.value []
          else if leb c.value_length (length c.buffer)
          then Reading.value (take c.value_length c.buffer)
          else Reading.overrun
    ]
    else Reading.thrown
