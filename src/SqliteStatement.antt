-- ===== src/SqliteStatement.antt =====
-- database/SQLite/SQLitePreparedStatement.cpp: a prepared statement whose values the library keeps. The
-- library is a parameter. `none` and false are an SQLiteException.
use morfeusz.Base.{
  ℕ, ◌-◌, Bool, true, false, not, ◌||◌, ◌&&◌, List, map, Option, none, some, ltb, ◌==◌,
  if◌then◌else◌, length, set, replicate,
}
use morfeusz.MySqlStatement.{is_all_set}

-- What sqlite3_bind_int, _int64, _double and _text are given; numbers by their two's complement or, for
-- a double, by the number of its bytes, and a text with the length that is given for it.
data Bound : Type 0 where
  bind_int bind_int64 bind_double : ℕ → Bound
  bind_text : List ℕ → ℕ → Bound

-- The calls of the library on a statement's handle; `bind` and `step_statement` give whether the result was
-- SQLITE_OK and SQLITE_DONE.
record Library (W R : Type 0) : Type 0 where
  bind_parameter_count : ℕ → ℕ
  bind : ℕ → ℕ → Bound → W → Bool × W
  clear_bindings : ℕ → W → W
  column_count : ℕ → W → ℕ
  step_statement : ℕ → W → Bool × W
  changes : W → ℕ
  result_set : ℕ → W → R × W

-- paramCount is the length of `params_set`.
record Statement : Type 0 where
  stmt : ℕ
  closed : Bool
  params_set : List Bool

abbrev unset : Statement → Statement
unset s = record s { params_set = map (λ b. false) s.params_set }

check_closed : Statement → Bool
check_closed s = not s.closed

-- close() throws on a closed statement.
close : Statement → Option Statement
unfolding check_closed
close s = if check_closed s then some (record s { closed = true }) else none

check_validity : ℕ → Statement → Bool
check_validity idx s = not (idx == 0 || ltb (length s.params_set) idx)

-- doQuery only checks.
do_query : Statement → Bool
unfolding check_closed is_all_set
do_query s = check_closed s && is_all_set s.params_set

module _ {W R : Type 0} (library : Library W R) where
  new_statement : ℕ → Statement
  new_statement handle = record {
    stmt = handle;
    closed = false;
    params_set = replicate (library.bind_parameter_count handle) false;
  }

  clear_parameters : Statement → W → Statement × W
  clear_parameters s w = (unset s, library.clear_bindings s.stmt w)

  execute : Statement → W → Option Bool
  unfolding do_query
  execute s w = if do_query s then some (ltb 0 (library.column_count s.stmt w)) else none

  execute_update : Statement → W → Option ℕ × W
  unfolding do_query
  execute_update s w =
      let (finished, after) = library.step_statement s.stmt w in
      if not (do_query s) || ltb 0 (library.column_count s.stmt w)
      then (none, w)
      else if finished
      then (some (library.changes after), after)
      else (none, after)

  -- getResultSet checks again that the statement is open.
  execute_query : Statement → W → Option R × W
  unfolding do_query check_closed
  execute_query s w =
      let (result, after) = library.result_set s.stmt w in
      if do_query s && check_closed s then (some result, after) else (none, w)

  -- How the setters go: the check, the mark, and the binding, whose failure is an exception.
  bind_value : ℕ → Bound → Statement → W → Bool × Statement × W
  unfolding check_validity
  bind_value index value s w =
      let (bound, after) = library.bind s.stmt index value w in
      if check_validity index s
      then (bound, record s { params_set = set s.params_set (index - 1) true }, after)
      else (false, s, w)

  set_int32 : ℕ → ℕ → Statement → W → Bool × Statement × W
  unfolding bind_value
  set_int32 index value = bind_value index (Bound.bind_int value)

  set_uint32 : ℕ → ℕ → Statement → W → Bool × Statement × W
  unfolding set_int32
  set_uint32 index value = set_int32 index value

  set_bool : ℕ → Bool → Statement → W → Bool × Statement × W
  unfolding set_uint32
  set_bool index value = set_uint32 index (if value then 1 else 0)

  set_uint8 : ℕ → ℕ → Statement → W → Bool × Statement × W
  unfolding set_uint32
  set_uint8 index value = set_uint32 index value

  set_uint16 : ℕ → ℕ → Statement → W → Bool × Statement × W
  unfolding set_uint32
  set_uint16 index value = set_uint32 index value

  -- The value is the two's complement of 32 bits that the int16 becomes.
  set_int16 : ℕ → ℕ → Statement → W → Bool × Statement × W
  unfolding set_int32
  set_int16 index value = set_int32 index value

  set_int64 : ℕ → ℕ → Statement → W → Bool × Statement × W
  unfolding bind_value
  set_int64 index value = bind_value index (Bound.bind_int64 value)

  set_uint64 : ℕ → ℕ → Statement → W → Bool × Statement × W
  unfolding set_int64
  set_uint64 index value = set_int64 index value

  set_double : ℕ → ℕ → Statement → W → Bool × Statement × W
  unfolding bind_value
  set_double index value = bind_value index (Bound.bind_double value)

  set_string : ℕ → List ℕ → Statement → W → Bool × Statement × W
  unfolding bind_value
  set_string index value = bind_value index (Bound.bind_text value (length value))
