-- ===== src/Database.antt =====
-- database/Database.h and Database.cpp: the operations that the daemons enqueue for their database,
-- with the values of their statement's parameters. The children run them. `none` is an access past
-- the end of a vector. A float is the number that its four bytes stand for.
pub mod Pool
pub mod Driver
pub mod Execute
pub mod Transaction
pub mod Worker
pub mod Params
pub mod Binding
pub mod Delivery
pub mod Outcomes
pub mod Atomicity
pub mod Liveness
pub mod Sql
use morfeusz.Base.{
  ℕ, ◌+◌, ◌-◌, ◌%◌, ◌^◌, Bool, true, false, List, [], ◌∷◌, ◌++◌, Option, some, ◌>>=◌, ltb,
  if◌then◌else◌, length, get_elem?, set, take, drop, replicate,
}
use morfeusz.Endian.{Host, store, load}

-- enum PreparedStatementValueType
pub data ValueType : Type 0 where
  type_bool type_u8 type_u16 type_u32 type_u64 type_float type_string : ValueType

-- The union is its eight bytes of memory.
pub record StatementData : Type 0 where
  pub content : List ℕ
  pub value_type : ValueType
  pub str : List ℕ

-- What vector::resize puts in the new places.
abbrev pub unset : StatementData
unset = record { content = replicate 8 0; value_type = ValueType.type_bool; str = [] }

-- A member of `n` bytes of the union, written and read.
unfoldable pub write_member : Host → ℕ → ℕ → List ℕ → List ℕ
unfolding store
write_member host n v content = store host n v ++ drop n content

unfoldable pub read_member : Host → ℕ → List ℕ → ℕ
unfolding load
read_member host n content = load host (take n content)

-- SqlOperationBase, and SqlOperationRequest; the future of its result when has_result is set.
pub record Operation : Type 0 where
  pub statement : ℕ
  pub result : Option ℕ
  pub statement_data : List StatementData

-- SqlOperationRequest's constructors.
abbrev pub new_request : ℕ → Option ℕ → Operation
new_request statement_id res = record {
  statement = statement_id;
  result = res;
  statement_data = [];
}

-- if (statement_data.size() < index) statement_data.resize(index)
unfoldable pub grow : ℕ → List StatementData → List StatementData
grow index params =
    if ltb (length params) index then params ++ replicate (index - length params) unset else params

-- statement_data[--index], written: `index` has eight bits.
unfoldable pub write_data : ℕ → (StatementData → StatementData) → Operation → Option Operation
unfolding grow
write_data index f op =
    let params = grow index op.statement_data in
    let at = (index + 255) % 2 ^ 8 in
    get_elem? params at >>= λ d. some (record op { statement_data = set params at (f d) })

module _ (host : Host) where
  unfoldable pub add_bool : ℕ → Bool → Operation → Option Operation
  unfolding write_data write_member
  add_bool index value op =
      write_data index
        (λ d. record d {
          content = write_member host 1 (if value then 1 else 0) d.content;
          value_type = ValueType.type_bool;
        })
        op

  -- Not the union's u8 but its u32 is written.
  unfoldable pub add_uint8 : ℕ → ℕ → Operation → Option Operation
  unfolding write_data write_member
  add_uint8 index value op =
      write_data index
        (λ d. record d {
          content = write_member host 4 value d.content;
          value_type = ValueType.type_u8;
        })
        op

  unfoldable pub add_uint16 : ℕ → ℕ → Operation → Option Operation
  unfolding write_data write_member
  add_uint16 index value op =
      write_data index
        (λ d. record d {
          content = write_member host 4 value d.content;
          value_type = ValueType.type_u16;
        })
        op

  unfoldable pub add_uint32 : ℕ → ℕ → Operation → Option Operation
  unfolding write_data write_member
  add_uint32 index value op =
      write_data index
        (λ d. record d {
          content = write_member host 4 value d.content;
          value_type = ValueType.type_u32;
        })
        op

  unfoldable pub add_uint64 : ℕ → ℕ → Operation → Option Operation
  unfolding write_data write_member
  add_uint64 index value op =
      write_data index
        (λ d. record d {
          content = write_member host 8 value d.content;
          value_type = ValueType.type_u64;
        })
        op

  unfoldable pub add_float : ℕ → ℕ → Operation → Option Operation
  unfolding write_data write_member
  add_float index value op =
      write_data index
        (λ d. record d {
          content = write_member host 4 value d.content;
          value_type = ValueType.type_float;
        })
        op

-- str.append: a second text for one index goes behind the first.
unfoldable pub add_string : ℕ → List ℕ → Operation → Option Operation
unfolding write_data
add_string index value op =
    write_data index (λ d. record d { str = d.str ++ value; value_type = ValueType.type_string }) op
