-- ===== src/Database/Execute.antt =====
-- database/Database.cpp, SqlOperationBase::execute, over the driver's interface. The other threads
-- see of it the results that it gives to futures. `none` is an access past the end of a vector.
use morfeusz.Base.{
  ℕ, ◌+◌, Bool, true, false, List, [], ◌∷◌, ◌++◌, Option, none, some, ◌>>=◌, ltb, get_elem?, set,
  u8, if◌then◌else◌,
}
use morfeusz.Endian.{Host}
use morfeusz.Database.{ValueType, StatementData, read_member, Operation}
use morfeusz.Database.Driver.{Param, Driver}

-- 0 and -1.
pub data Outcome : Type 0 where
  done failed : Outcome

-- DatabaseConnection: its statement_holder, with the server behind its connection.
pub record Database (S W R : Type 0) : Type 0 where
  pub statements : List S
  pub server : W
  pub answers : List (ℕ × R)

module _ {S W R : Type 0} (d : Driver S W R) where
  -- executeQuery and result.set, or execute; then clearParameters.
  unfoldable pub run_statement : Option ℕ → S → Database S W R → Outcome × (S × Database S W R)
  run_statement none s db =
      let (returned, server) = d.execute s db.server in
      if returned
      then (Outcome.done, (d.clear_parameters s, record db { server = server }))
      else (Outcome.failed, (s, record db { server = server }))
  run_statement (some future) s db =
      let (answer, server) = d.execute_query s db.server in
      elim answer [
        | none ↦ (Outcome.failed, (s, record db { server = server }))
        | some r ↦ (
          Outcome.done,
          (
            d.clear_parameters s,
            record db { server = server; answers = db.answers ++ (future, r) ∷ [] },
          ),
        )
      ]

module _ (host : Host) (double_of : ℕ → ℕ) where
  -- The switch of execute: which setter is called, and with what.
  unfoldable pub param_of : StatementData → Param
  unfolding read_member
  param_of d = elim d.value_type [
    | ValueType.type_bool ↦ Param.bool (ltb 0 (read_member host 1 d.content))
    | ValueType.type_u8 ↦ Param.uint32 (read_member host 4 d.content)
    | ValueType.type_u16 ↦ Param.uint32 (read_member host 4 d.content)
    | ValueType.type_u32 ↦ Param.uint32 (read_member host 4 d.content)
    | ValueType.type_u64 ↦ Param.uint64 (read_member host 8 d.content)
    | ValueType.type_float ↦ Param.double (double_of (read_member host 4 d.content))
    | ValueType.type_string ↦ Param.string d.str
  ]

  module _ {S W R : Type 0} (d : Driver S W R) where
    -- The loop: the index is passed on in eight bits. With whether no setter has thrown.
    unfoldable pub bind_loop : ℕ → List StatementData → S → Bool × S
    unfolding param_of
    bind_loop i [] s = (true, s)
    bind_loop i (x ∷ xs) s = elim (d.set_param (u8 (i + 1)) (param_of x) s) [
      | none ↦ (false, s)
      | some r ↦ bind_loop (i + 1) xs r
    ]

    unfoldable pub execute : Operation → Database S W R → Option (Outcome × Database S W R)
    unfolding bind_loop run_statement
    execute op db = do
      s ← get_elem? db.statements op.statement
      let (fine, filled) = bind_loop 0 op.statement_data s
      let (outcome, (after, changed)) =
          if fine then run_statement d op.result filled db else (Outcome.failed, (filled, db))
      some (outcome, record changed { statements = set db.statements op.statement after })
