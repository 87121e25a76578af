-- ===== src/Database/Atomicity.antt =====
-- database/Database.h, SqlOperationTransaction: what it leaves of its changes, of the connection's
-- mode and of its memory.
use morfeusz.Base.{
  ℕ, suc, ◌+◌, ◌/◌, ◌≤◌, ◌≡◌, refl, sym, ap, subst, ◌⊎◌, ◌∙◌, Bool, false, List, [], ◌∷◌, Option,
  none, some, length, arith, ltb, get_elem?, Bool-cases, Option-cases, inl, inr, Yields,
  Yields-result,
}
use morfeusz.Endian.{Host}
use morfeusz.Database.{Operation}
use morfeusz.Database.Driver.{Driver}
use morfeusz.Database.Execute.{Outcome, Database, run_statement, bind_loop, execute}
use morfeusz.Database.Transaction.{Connection, Transaction, free_loop, call_requests, call, destroy}
use morfeusz.Database.Outcomes.{AllKnown, execute-Answered}

-- What the database documents of its transactions: `committed` is what other connections see,
-- `current` what this one does.
pub record IsTransactional {S W R C : Type 0} (d : Driver S W R) (c : Connection W)
    (committed current : W → C) : Type 0 where
  pub get-set : (b : Bool) (w : W) → c.get_auto_commit (c.set_auto_commit b w) ≡ b
  pub committed-set_false : (w : W) → committed (c.set_auto_commit false w) ≡ committed w
  pub execute-mode : (s : S) (w : W) → c.get_auto_commit (d.execute s w).1 ≡ c.get_auto_commit w
  pub query-mode : (s : S) (w : W) → c.get_auto_commit (d.execute_query s w).1 ≡ c.get_auto_commit w
  pub committed-execute :
      (s : S) (w : W) → c.get_auto_commit w ≡ false → committed (d.execute s w).1 ≡ committed w
  pub committed-query :
      (s : S) (w : W)
      → c.get_auto_commit w ≡ false
      → committed (d.execute_query s w).1 ≡ committed w
  pub committed-commit : (w : W) → committed (c.commit w) ≡ current w
  pub committed-rollback : (w : W) → committed (c.rollback w) ≡ committed w
  pub current-rollback : (w : W) → current (c.rollback w) ≡ committed w

free_loop-length :
    (i : ℕ) (ops : List Operation)
    → i ≤ suc (length ops)
    → length (free_loop i ops) ≡ (length ops + i) / 2
unfolding free_loop
free_loop-length i [] h = omega arith
free_loop-length i (op ∷ ops) h = elim (Bool-cases (ltb i (suc (length ops)))) [
  | inl e ↦ rw e (free_loop-length (i + 1) ops (ground arith) ∙ omega arith)
  | inr e ↦ rw e (ground arith)
]

Outcome-cases : (o : Outcome) → (o ≡ Outcome.done) ⊎ (o ≡ Outcome.failed)
Outcome-cases Outcome.done = inl refl
Outcome-cases Outcome.failed = inr refl

module _ (host : Host) (double_of : ℕ → ℕ) {S W R C : Type 0} (d : Driver S W R) (c : Connection W)
    (committed current : W → C) (law : IsTransactional d c committed current) where
  -- What a request leaves as it was while the mode is off.
  Quiet : W → W → Type 0
  Quiet before after =
      (c.get_auto_commit after ≡ c.get_auto_commit before) × (committed after ≡ committed before)

  run_statement-Quiet :
      (res : Option ℕ) (s : S) (db : Database S W R)
      → c.get_auto_commit db.server ≡ false
      → Quiet db.server (run_statement d res s db).1.1.server
  unfolding run_statement Quiet
  run_statement-Quiet none s db off = elim (Bool-cases (d.execute s db.server).0) [
    | inl e ↦ rw e (law.execute-mode s db.server, law.committed-execute s db.server off)
    | inr e ↦ rw e (law.execute-mode s db.server, law.committed-execute s db.server off)
  ]
  run_statement-Quiet (some f) s db off = elim (Option-cases (d.execute_query s db.server).0) [
    | inl e ↦
        rw (run_statement, e) (law.query-mode s db.server, law.committed-query s db.server off)
    | inr (r, e) ↦
        rw (run_statement, e) (law.query-mode s db.server, law.committed-query s db.server off)
  ]

  execute-Quiet :
      (op : Operation) (db : Database S W R)
      → c.get_auto_commit db.server ≡ false
      → Yields (λ r. Quiet db.server r.1.server) (execute host double_of d op db)
  unfolding execute Quiet
  execute-Quiet op db off = elim (Option-cases (get_elem? db.statements op.statement)) [
    | inl e ↦ rw e tt
    | inr (s, e) ↦
        let b = bind_loop host double_of d 0 op.statement_data s in
        rw e (elim (Bool-cases b.0) [
          | inl fine ↦ rw fine (run_statement-Quiet op.result b.1 db off)
          | inr stop ↦ rw stop (refl, refl)
        ])
  ]

  -- The loop ends; it leaves the committed data and the mode, and nothing in the queue if it is done.
  abbrev Ended : List Operation → Database S W R → Type 0
  Ended ops db =
      (o : Outcome) × (left : List Operation) × (after : Database S W R) × (call_requests host
          double_of d ops db
        ≡ some (o, (left, after)))
      × Quiet db.server after.server
      × (o ≡ Outcome.done → left ≡ [])

  call_requests-Ended :
      (ops : List Operation) (db : Database S W R)
      → AllKnown (length db.statements) ops
      → c.get_auto_commit db.server ≡ false
      → Ended ops db
  unfolding call_requests Quiet
  call_requests-Ended [] db k off = (Outcome.done, [], db, refl, (refl, refl), λ _. refl)
  call_requests-Ended (op ∷ ops) db k off =
      let (o, after, ran, same, answered) = execute-Answered host double_of d op db k.0 in
      let quiet =
        Yields-result (λ r. Quiet db.server r.1.server) (execute host double_of d op db) (o, after)
          (execute-Quiet op db off) ran in
      elim o as (λ x. execute host double_of d op db ≡ some (x, after) → Ended (op ∷ ops) db) [
        | Outcome.done ↦ λ e.
            let known = subst (λ n. AllKnown n ops) (sym same) k.1 in
            let (o', left, end, r, still, clear) =
              call_requests-Ended ops after known (quiet.0 ∙ off) in
            (o', left, end, rw e r, (still.0 ∙ quiet.0, still.1 ∙ quiet.1), clear)
        | Outcome.failed ↦
            λ e. (Outcome.failed, op ∷ ops, after, rw e refl, quiet, λ bad. absurd cc)
      ]
        ran

  -- With prepared statements, on a database that keeps its transactions apart, call ends in one of two
  -- ways: every request succeeded and what the last one left is committed; or one failed and what is
  -- committed and what the connection sees are as they were before. The connection's mode is saved.
  pub call_lem :
      (tx : Transaction) (db : Database S W R)
      → AllKnown (length db.statements) tx.requests
      → (left : List Operation) × (last : Database S W R) × (after : Database S W R) × (((call host
                double_of d c tx db
              ≡ some (
                Outcome.done,
                (
                  record tx { autocommit_state = c.get_auto_commit db.server; requests = [] },
                  after,
                ),
              ))
            × (call_requests host double_of d tx.requests
                  (record db { server = c.set_auto_commit false db.server })
                ≡ some (Outcome.done, ([], last)))
            × (committed after.server ≡ current last.server))
          ⊎ ((call host double_of d c tx db
                ≡ some (
                  Outcome.failed,
                  (
                    record tx { autocommit_state = c.get_auto_commit db.server; requests = left },
                    after,
                  ),
                ))
              × (committed after.server ≡ committed db.server)
              × (current after.server ≡ committed db.server)))
  unfolding call Quiet
  call_lem tx db k =
      let begun = record db { server = c.set_auto_commit false db.server } in
      let (o, left, last, ran, quiet, clear) =
        call_requests-Ended tx.requests begun k (law.get-set false db.server) in
      let unseen = quiet.1 ∙ law.committed-set_false db.server in
      elim (Outcome-cases o) [
        | inl fine ↦
            let all =
              ran
              ∙ ap (λ x. some (x, (left, last))) fine
              ∙ ap (λ l. some (Outcome.done, (l, last))) (clear fine) in
            (
              left,
              last,
              record last { server = c.commit last.server },
              inl (rw all refl, all, law.committed-commit last.server),
            )
        | inr bad ↦
            let some_failed = ran ∙ ap (λ x. some (x, (left, last))) bad in
            (
              left,
              last,
              record last { server = c.rollback last.server },
              inr (
                rw some_failed refl,
                law.committed-rollback last.server ∙ unseen,
                law.current-rollback last.server ∙ unseen,
              ),
            )
      ]

  -- Called with prepared statements and deleted, a transaction leaves the connection's mode as it found
  -- it; of the requests that its call left in the queue it deletes one half and leaks the other,
  -- rounded down.
  pub destroy-call :
      (tx : Transaction) (db : Database S W R)
      → AllKnown (length db.statements) tx.requests
      → (o : Outcome) × (ended : Transaction) × (after : Database S W R) × (call host double_of d c
            tx db
          ≡ some (o, (ended, after)))
        × (let (leaked, final) = destroy host double_of d c ended after in
            (c.get_auto_commit final.server ≡ c.get_auto_commit db.server)
            × (length leaked ≡ length ended.requests / 2))
  unfolding call destroy
  destroy-call tx db k =
      let saved = c.get_auto_commit db.server in
      let (left, last, after, ends) = call_lem tx db k in
      elim ends [
        | inl (e, _, _) ↦ (
          Outcome.done,
          record tx { autocommit_state = saved; requests = [] },
          after,
          e,
          (law.get-set saved after.server, omega arith),
        )
        | inr (e, _, _) ↦ (
          Outcome.failed,
          record tx { autocommit_state = saved; requests = left },
          after,
          e,
          (law.get-set saved after.server, free_loop-length 0 left (omega arith) ∙ omega arith),
        )
      ]
