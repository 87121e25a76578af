-- ===== src/Dbc.antt =====
-- common/dbc/DBC_File.h and DBC_File.cpp: the files of records that the client's data is kept in. The
-- stream is the bytes of a file shorter than 2 ^ 32 bytes, and a position.
pub mod Store
pub mod Cursor
pub mod Races
use morfeusz.Base.{
  ℕ, zero, suc, ◌+◌, ◌*◌, ◌/◌, ◌%◌, ◌^◌, Bool, true, false, List, [], ◌∷◌, Option, leb, ◌==◌,
  if◌then◌else◌, length, take, drop, u32,
}
use morfeusz.Endian.{Host, load}

-- `thrown` is a DBC_Read_Exception; `lost` is a value that no read has set, a loop that does not end
-- at the end of the file, or a division by zero.
pub data Result (A : Type 0) : Type 0 where
  ok : A → Result A
  thrown lost : Result A

infixl 5 ◌>>=◌
abbrev pub ◌>>=◌ : {A B : Type 0} → Result A → (A → Result B) → Result B
ok a >>= f = f a
thrown >>= f = thrown
lost >>= f = lost

pub record DbcFile : Type 0 where
  pub bytes : List ℕ
  pub pos : ℕ
  pub records : ℕ
  pub fields : ℕ
  pub record_size : ℕ
  pub field_size : ℕ
  pub data_size : ℕ
  pub string_block_size : ℕ

-- The bytes are read into an object, in the machine's order.
unfoldable pub read_uint32 : Host → DbcFile → Result (ℕ × DbcFile)
read_uint32 host f =
    if leb (f.pos + 4) (length f.bytes)
    then ok (load host (take 4 (drop f.pos f.bytes)), record f { pos = f.pos + 4 })
    else lost

-- The float of the same bytes.
read_float : Host → DbcFile → Result (ℕ × DbcFile)
unfolding read_uint32
read_float host f = read_uint32 host f

-- The loop of read_string, on what is left of the file.
unfoldable pub text_at : List ℕ → Result (List ℕ)
text_at [] = lost
text_at (c ∷ rest) = let more = text_at rest in if c == 0 then ok [] else more >>= λ s. ok (c ∷ s)

unfoldable pub read_string : Host → DbcFile → Result (List ℕ × DbcFile)
unfolding text_at
read_string host f = if leb f.string_block_size 1 then thrown else (do
  (offset, after) ← read_uint32 host f
  ret ← text_at (drop (u32 (f.data_size + offset)) f.bytes)
  ok (ret, after))

unfoldable pub skip_field : DbcFile → DbcFile
skip_field f = record f { pos = f.pos + f.field_size }

-- Before anything is read.
abbrev pub opened : List ℕ → DbcFile
opened contents = record {
  bytes = contents;
  pos = 0;
  records = 0;
  fields = 0;
  record_size = 0;
  field_size = 0;
  data_size = 0;
  string_block_size = 0;
}

-- The constructor, on the contents of a file that could be opened.
unfoldable pub new_dbc_file : Host → List ℕ → Result DbcFile
unfolding read_uint32
new_dbc_file host contents = do
  (signature, file) ← read_uint32 host (opened contents)
  (if signature == 0x43424457
      then (do
        (records, file) ← read_uint32 host file
        (fields, file) ← read_uint32 host file
        (record_size, file) ← read_uint32 host file
        (string_block_size, file) ← read_uint32 host file
        (if fields == 0
            then lost
            else ok (record file {
              records = records;
              fields = fields;
              record_size = record_size;
              field_size = record_size / fields;
              data_size = u32 (records * record_size + 20);
              string_block_size = string_block_size;
            })))
      else thrown)
