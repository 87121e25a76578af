-- ===== src/Database/Outcomes.antt =====
-- database/Database.cpp, execute: whom a result is given to, and that it ends.
use morfeusz.Base.{
  ℕ, ◌<◌, ◌≡◌, refl, List, [], ◌∷◌, ◌++◌, Option, none, some, length, length-set, get_elem?_below,
  Bool-cases, Option-cases, inl, inr, set,
}
use morfeusz.Endian.{Host}
use morfeusz.Database.{Operation}
use morfeusz.Database.Driver.{Driver}
use morfeusz.Database.Execute.{Outcome, Database, bind_loop, run_statement, execute}

-- A request that ends well gives its future, if it has one, one result; no other future gets any.
abbrev pub Answered : {R : Type 0} → Outcome → Option ℕ → List (ℕ × R) → List (ℕ × R) → Type 0
Answered Outcome.done none before after = after ≡ before
Answered {R} Outcome.done (some future) before after =
    (r : R) × (after ≡ before ++ (future, r) ∷ [])
Answered Outcome.failed res before after = after ≡ before

-- The statements that the requests name have been prepared.
abbrev pub AllKnown : ℕ → List Operation → Type 0
AllKnown n [] = Unit {0}
AllKnown n (op ∷ ops) = (op.statement < n) × AllKnown n ops

module _ (host : Host) (double_of : ℕ → ℕ) {S W R : Type 0} (d : Driver S W R) where
  run_statement-Answered :
      (res : Option ℕ) (s : S) (db : Database S W R)
      → let (o, (s', after)) = run_statement d res s db in Answered o res db.answers after.answers
  unfolding run_statement
  run_statement-Answered none s db = elim (Bool-cases (d.execute s db.server).0) [
    | inl e ↦ rw e refl
    | inr e ↦ rw e refl
  ]
  run_statement-Answered (some f) s db = elim (Option-cases (d.execute_query s db.server).0) [
    | inl e ↦ rw (Answered, run_statement, e) refl
    | inr (r, e) ↦ rw (Answered, run_statement, e) (r, refl)
  ]

  pub execute-Answered :
      (op : Operation) (db : Database S W R)
      → op.statement < length db.statements
      → (o : Outcome) × (after : Database S W R) × (execute host double_of d op db
          ≡ some (o, after))
        × (length after.statements ≡ length db.statements)
        × Answered o op.result db.answers after.answers
  unfolding execute
  execute-Answered op db h =
      let (s, at) = get_elem?_below db.statements op.statement h in
      let b = bind_loop host double_of d 0 op.statement_data s in
      let ran = run_statement d op.result b.1 db in
      elim (Bool-cases b.0) [
        | inl e ↦ (
          ran.0,
          record ran.1.1 { statements = set db.statements op.statement ran.1.0 },
          rw (at, e) refl,
          length-set db.statements op.statement ran.1.0,
          run_statement-Answered op.result b.1 db,
        )
        | inr e ↦ (
          Outcome.failed,
          record db { statements = set db.statements op.statement b.1 },
          rw (at, e) refl,
          length-set db.statements op.statement b.1,
          refl,
        )
      ]
