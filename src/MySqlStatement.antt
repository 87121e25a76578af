-- ===== src/MySqlStatement.antt =====
-- database/MySQL/MySQLPreparedStatement.cpp: a prepared statement and the buffers of its parameters.
-- The client library is a parameter. `none` is a MySQLException.
pub mod Contract
use morfeusz.Base.{
  ℕ, ◌+◌, ◌-◌, ◌^◌, Bool, true, false, not, ◌||◌, ◌&&◌, List, [], ◌∷◌, ◌++◌, map, Option, none,
  some, ltb, ◌==◌, if◌then◌else◌, length, get_or, set, replicate,
}
use morfeusz.Endian.{Host, store}
use morfeusz.Database.Driver.{Param, Driver}

-- The members of enum_field_types that are written: MYSQL_TYPE_DECIMAL is 0.
pub data FieldType : Type 0 where
  decimal long longlong double var_string : FieldType

-- MYSQL_BIND, less is_null_value and is_unsigned, which are 0 throughout: the constructor clears them
-- and no setter touches them. `none` is NULL.
pub record Bind : Type 0 where
  pub buffer_type : FieldType
  pub buffer : Option (List ℕ)
  pub buffer_length : ℕ
  pub value_length : Option ℕ

-- paramCount is the length of `bind`; `stmt` is the library's handle.
pub record Statement : Type 0 where
  pub stmt : ℕ
  pub closed : Bool
  pub params_set : List Bool
  pub bind : List Bind

abbrev pub zeroed : Bind
zeroed = record {
  buffer_type = FieldType.decimal;
  buffer = none;
  buffer_length = 0;
  value_length = none;
}

-- mysql_stmt_bind_param with mysql_stmt_execute, whether both succeeded; what MySQLPreparedResultSet
-- makes of the result; and the counts that are asked for.
pub record Client (W R : Type 0) : Type 0 where
  pub param_count : ℕ → ℕ
  pub run : ℕ → List Bind → W → Bool × W
  pub result_set : ℕ → W → Option R × W
  pub field_count : ℕ → W → ℕ
  pub affected_rows : ℕ → W → ℕ

module _ {W R : Type 0} (client : Client W R) where
  unfoldable pub new_statement : ℕ → Statement
  new_statement handle = record {
    stmt = handle;
    closed = false;
    params_set = replicate (client.param_count handle) false;
    bind = replicate (client.param_count handle) zeroed;
  }

  -- checkClosed throws too.
  unfoldable pub do_query : Statement → W → Bool × W
  do_query s w = if s.closed then (false, w) else client.run s.stmt s.bind w

  unfoldable pub execute : Statement → W → Option Bool × W
  unfolding do_query
  execute s w =
      let (returned, after) = do_query s w in
      (if returned then some (ltb 0 (client.field_count s.stmt after)) else none, after)

  unfoldable pub execute_update : Statement → W → Option ℕ × W
  unfolding do_query
  execute_update s w =
      let (returned, after) = do_query s w in
      (if returned then some (client.affected_rows s.stmt after) else none, after)

  unfoldable pub execute_query : Statement → W → Option R × W
  unfolding do_query
  execute_query s w =
      let (returned, after) = do_query s w in
      if returned then client.result_set s.stmt after else (none, after)

pub clear_bind : Bind → Bind
clear_bind b = record b { buffer = none; value_length = none }

unfoldable pub clear_parameters : Statement → Statement
unfolding clear_bind
clear_parameters s = record s {
  bind = map clear_bind s.bind;
  params_set = map (λ b. false) s.params_set;
}

close : Statement → Option Statement
close s = if s.closed then none else some (record s { closed = true })

-- False is an exception.
unfoldable pub check_validity : ℕ → Statement → Bool
check_validity idx s = not (idx == 0 || ltb (length s.bind) idx)

unfoldable pub is_all_set : List Bool → Bool
is_all_set [] = true
is_all_set (b ∷ bs) = b && is_all_set bs

-- The bytes are those of the value in memory.
unfoldable pub set_value : List ℕ → Bind → Bind
set_value value param = record param { buffer = some value; buffer_length = 0; value_length = none }

-- How every setter begins: the check, the mark, and bind[index - 1].
unfoldable pub at_param : ℕ → (Bind → Bind) → Statement → Option Statement
unfolding check_validity
at_param index f s =
    if check_validity index s
    then some (record s {
      params_set = set s.params_set (index - 1) true;
      bind = set s.bind (index - 1) (f (get_or s.bind (index - 1) zeroed));
    })
    else none

module _ (host : Host) where
  unfoldable pub set_uint32 : ℕ → ℕ → Statement → Option Statement
  unfolding at_param set_value
  set_uint32 index value s =
      at_param index
        (λ param. set_value (store host 4 value) (record param { buffer_type = FieldType.long })) s

  unfoldable pub set_bool : ℕ → Bool → Statement → Option Statement
  unfolding set_uint32
  set_bool index value s = set_uint32 index (if value then 1 else 0) s

  set_uint8 : ℕ → ℕ → Statement → Option Statement
  unfolding set_uint32
  set_uint8 index value s = set_uint32 index value s

  set_uint16 : ℕ → ℕ → Statement → Option Statement
  unfolding set_uint32
  set_uint16 index value s = set_uint32 index value s

  unfoldable pub set_uint64 : ℕ → ℕ → Statement → Option Statement
  unfolding at_param set_value
  set_uint64 index value s =
      at_param index
        (λ param.
          set_value (store host 8 value) (record param { buffer_type = FieldType.longlong }))
        s

  -- Signed values are their two's complement.
  set_int32 : ℕ → ℕ → Statement → Option Statement
  unfolding at_param set_value
  set_int32 index value s =
      at_param index
        (λ param. set_value (store host 4 value) (record param { buffer_type = FieldType.long })) s

  -- The argument is widened with its sign.
  set_int16 : ℕ → ℕ → Statement → Option Statement
  unfolding set_int32
  set_int16 index value s =
      set_int32 index (if ltb value (2 ^ 15) then value else value + (2 ^ 32 - 2 ^ 16)) s

  set_int64 : ℕ → ℕ → Statement → Option Statement
  unfolding at_param set_value
  set_int64 index value s =
      at_param index
        (λ param.
          set_value (store host 8 value) (record param { buffer_type = FieldType.longlong }))
        s

  unfoldable pub set_double : ℕ → ℕ → Statement → Option Statement
  unfolding at_param set_value
  set_double index value s =
      at_param index
        (λ param. set_value (store host 8 value) (record param { buffer_type = FieldType.double }))
        s

-- With the NUL behind the text, which value_length leaves out.
unfoldable pub set_string : ℕ → List ℕ → Statement → Option Statement
unfolding at_param
set_string index value s =
    at_param index
      (λ param. record param {
        buffer_type = FieldType.var_string;
        buffer = some (value ++ 0 ∷ []);
        buffer_length = length value + 1;
        value_length = some (length value);
      })
      s

module _ (host : Host) {W R : Type 0} (client : Client W R) where
  unfoldable pub set_param : ℕ → Param → Statement → Option Statement
  unfolding set_bool set_uint32 set_uint64 set_double set_string
  set_param index (Param.bool b) s = set_bool host index b s
  set_param index (Param.uint32 n) s = set_uint32 host index n s
  set_param index (Param.uint64 n) s = set_uint64 host index n s
  set_param index (Param.double n) s = set_double host index n s
  set_param index (Param.string t) s = set_string index t s

  -- The statement as Database.cpp sees it.
  unfoldable pub mysql_driver : Driver Statement W R
  unfolding set_param do_query execute_query clear_parameters
  mysql_driver = record {
    set_param = set_param;
    clear_parameters = clear_parameters;
    execute = do_query client;
    execute_query = execute_query client;
  }
