-- ===== src/Database/Params.antt =====
-- database/Database.cpp: the values that the callers add to a statement, one after the other.
use morfeusz.Base.{
  ℕ, ◌+◌, ◌-◌, ◌%◌, ◌^◌, ◌≤◌, ◌<◌, ◌≡◌, refl, ap, subst, Bool, true, false, List, [], ◌∷◌, ◌++◌,
  map, append_assoc, append-nil, Option, some, ◌>>=◌, arith, length, take, drop, replicate,
  length-append, take-append_length, if◌then◌else◌, lt→ltb, get_elem?-append_length,
  set-append_length,
}
use morfeusz.Endian.{Host, store, length-store, load-store}
use morfeusz.Database.{
  ValueType, StatementData, unset, write_member, read_member, Operation, grow, write_data, add_bool,
  add_uint8, add_uint16, add_uint32, add_uint64, add_float, add_string,
}
use morfeusz.Database.Driver.{Param}
use morfeusz.Database.Execute.{param_of}

-- A call of add_bool, ..., add_string, less its index.
pub data Given : Type 0 where
  bool : Bool → Given
  uint8 uint16 uint32 uint64 float : ℕ → Given
  string : List ℕ → Given

unfoldable pub add : Host → ℕ → Given → Operation → Option Operation
unfolding add_bool add_uint8 add_uint16 add_uint32 add_uint64 add_float add_string
add host index (Given.bool b) = add_bool host index b
add host index (Given.uint8 n) = add_uint8 host index n
add host index (Given.uint16 n) = add_uint16 host index n
add host index (Given.uint32 n) = add_uint32 host index n
add host index (Given.uint64 n) = add_uint64 host index n
add host index (Given.float n) = add_float host index n
add host index (Given.string s) = add_string index s

-- The calls for the indices from `index` on.
unfoldable pub add_all : Host → ℕ → List Given → Operation → Option Operation
unfolding add
add_all host index [] op = some op
add_all host index (g ∷ gs) op =
    add host index g op >>= λ changed. add_all host (index + 1) gs changed

-- Their widths: an eight-bit value is kept in 32 bits.
abbrev pub Width : Given → Type 0
Width (Given.bool b) = Unit {0}
Width (Given.uint8 n) = n < 2 ^ 8
Width (Given.uint16 n) = n < 2 ^ 16
Width (Given.uint32 n) = n < 2 ^ 32
Width (Given.uint64 n) = n < 2 ^ 64
Width (Given.float n) = n < 2 ^ 32
Width (Given.string s) = Unit {0}

abbrev pub Widths : List Given → Type 0
Widths [] = Unit {0}
Widths (g ∷ gs) = Width g × Widths gs

-- What the driver is to be given.
unfoldable pub given_param : (ℕ → ℕ) → Given → Param
given_param double_of (Given.bool b) = Param.bool b
given_param double_of (Given.uint8 n) = Param.uint32 n
given_param double_of (Given.uint16 n) = Param.uint32 n
given_param double_of (Given.uint32 n) = Param.uint32 n
given_param double_of (Given.uint64 n) = Param.uint64 n
given_param double_of (Given.float n) = Param.double (double_of n)
given_param double_of (Given.string s) = Param.string s

-- The place that a call leaves when nothing was written there before.
pub entry : Host → Given → StatementData
unfolding write_member
entry host (Given.bool b) = record unset {
  content = write_member host 1 (if b then 1 else 0) (replicate 8 0);
  value_type = ValueType.type_bool;
}
entry host (Given.uint8 n) = record unset {
  content = write_member host 4 n (replicate 8 0);
  value_type = ValueType.type_u8;
}
entry host (Given.uint16 n) = record unset {
  content = write_member host 4 n (replicate 8 0);
  value_type = ValueType.type_u16;
}
entry host (Given.uint32 n) = record unset {
  content = write_member host 4 n (replicate 8 0);
  value_type = ValueType.type_u32;
}
entry host (Given.uint64 n) = record unset {
  content = write_member host 8 n (replicate 8 0);
  value_type = ValueType.type_u64;
}
entry host (Given.float n) = record unset {
  content = write_member host 4 n (replicate 8 0);
  value_type = ValueType.type_float;
}
entry host (Given.string s) = record unset { str = s; value_type = ValueType.type_string }

read_member-write_member :
    (host : Host) (n v : ℕ) (content : List ℕ)
    → v < 256 ^ n
    → read_member host n (write_member host n v content) ≡ v
unfolding read_member write_member
read_member-write_member host n v content h =
    let whole : take n (store host n v ++ drop n content) ≡ store host n v =
      subst (λ k. take k (store host n v ++ drop n content) ≡ store host n v)
        (length-store host n v) (take-append_length (store host n v) (drop n content)) in
    rw whole (load-store host n v h)

grow_one : (params : List StatementData) → grow (length params + 1) params ≡ params ++ unset ∷ []
unfolding grow
grow_one params =
    let one : length params + 1 - length params ≡ 1 = omega arith in
    rw (lt→ltb (length params) (length params + 1) (omega arith), one) refl

write_data_next :
    (f : StatementData → StatementData) (op : Operation)
    → length op.statement_data < 255
    → write_data (length op.statement_data + 1) f op
      ≡ some (record op { statement_data = op.statement_data ++ f unset ∷ [] })
unfolding write_data
write_data_next f op h =
    let at : (length op.statement_data + 1 + 255) % 256 ≡ length op.statement_data = omega arith in
    rw
      (
        grow_one op.statement_data,
        at,
        get_elem?-append_length op.statement_data unset [],
        set-append_length op.statement_data unset (f unset) [],
      )
      refl

add_next :
    (host : Host) (g : Given) (op : Operation)
    → length op.statement_data < 255
    → add host (length op.statement_data + 1) g op
      ≡ some (record op { statement_data = op.statement_data ++ entry host g ∷ [] })
unfolding add entry
add_next host (Given.bool b) op h = write_data_next _ op h
add_next host (Given.uint8 n) op h = write_data_next _ op h
add_next host (Given.uint16 n) op h = write_data_next _ op h
add_next host (Given.uint32 n) op h = write_data_next _ op h
add_next host (Given.uint64 n) op h = write_data_next _ op h
add_next host (Given.float n) op h = write_data_next _ op h
add_next host (Given.string s) op h = write_data_next _ op h

-- What execute reads of such a place.
pub param_of-entry :
    (host : Host) (double_of : ℕ → ℕ) (g : Given)
    → Width g
    → param_of host double_of (entry host g) ≡ given_param double_of g
unfolding param_of entry given_param
param_of-entry host double_of (Given.bool true) w =
    rw (read_member-write_member host 1 1 (replicate 8 0) (omega arith)) refl
param_of-entry host double_of (Given.bool false) w =
    rw (read_member-write_member host 1 0 (replicate 8 0) (omega arith)) refl
param_of-entry host double_of (Given.uint8 n) w =
    ap Param.uint32 (read_member-write_member host 4 n (replicate 8 0) (omega arith))
param_of-entry host double_of (Given.uint16 n) w =
    ap Param.uint32 (read_member-write_member host 4 n (replicate 8 0) (omega arith))
param_of-entry host double_of (Given.uint32 n) w =
    ap Param.uint32 (read_member-write_member host 4 n (replicate 8 0) (omega arith))
param_of-entry host double_of (Given.uint64 n) w =
    ap Param.uint64 (read_member-write_member host 8 n (replicate 8 0) (omega arith))
param_of-entry host double_of (Given.float n) w =
    ap (λ t. Param.double (double_of t))
      (read_member-write_member host 4 n (replicate 8 0) (omega arith))
param_of-entry host double_of (Given.string s) w = refl

pub add_all-entries :
    (host : Host) (gs : List Given) (op : Operation)
    → length op.statement_data + length gs ≤ 255
    → add_all host (length op.statement_data + 1) gs op
      ≡ some (record op { statement_data = op.statement_data ++ map (entry host) gs })
unfolding add_all
add_all-entries host [] op h = rw (append-nil op.statement_data) refl
add_all-entries host (g ∷ gs) op h =
    let added = op.statement_data ++ entry host g ∷ [] in
    let next : length added ≡ length op.statement_data + 1 =
      length-append op.statement_data (entry host g ∷ []) in
    let rest = add_all-entries host gs (record op { statement_data = added }) (omega arith) in
    let again =
      subst
        (λ k.
          add_all host (k + 1) gs (record op { statement_data = added })
          ≡ some (record op { statement_data = added ++ map (entry host) gs }))
        next rest in
    rw (add_next host g op (omega arith), again, append_assoc op.statement_data) refl
