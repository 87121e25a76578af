-- ===== src/Database/Transaction.antt =====
-- database/Database.h, class SqlOperationTransaction: its call and its destructor, over what it asks
-- of the connection. A printed line has no part here.
use morfeusz.Base.{
  ℕ, ◌+◌, Bool, false, List, [], ◌∷◌, ◌++◌, Option, some, ◌>>=◌, ltb, if◌then◌else◌, length,
}
use morfeusz.Endian.{Host}
use morfeusz.Database.{Operation}
use morfeusz.Database.Driver.{Driver}
use morfeusz.Database.Execute.{Outcome, Database, execute}

-- getAutoCommit, setAutoCommit, commit and rollback of the driver's connection.
pub record Connection (W : Type 0) : Type 0 where
  pub get_auto_commit : W → Bool
  pub set_auto_commit : Bool → W → W
  pub commit : W → W
  pub rollback : W → W

pub record Transaction : Type 0 where
  pub autocommit_state : Bool
  pub requests : List Operation

-- append: the queue's push.
pub append : Operation → Transaction → Transaction
append op tx = record tx { requests = tx.requests ++ op ∷ [] }

-- The destructor's loop, whose bound is read again at every turn; what stays is never deleted.
unfoldable pub free_loop : ℕ → List Operation → List Operation
free_loop i [] = []
free_loop i (op ∷ ops) =
    let rest = free_loop (i + 1) ops in if ltb i (length (op ∷ ops)) then rest else op ∷ ops

module _ (host : Host) (double_of : ℕ → ℕ) {S W R : Type 0} (d : Driver S W R) where
  -- The loop of call, with the requests that it leaves in the queue.
  unfoldable pub call_requests :
      List Operation → Database S W R → Option (Outcome × (List Operation × Database S W R))
  call_requests [] db = some (Outcome.done, ([], db))
  call_requests (op ∷ ops) db = execute host double_of d op db >>= λ r. elim r.0 [
    | Outcome.done ↦ call_requests ops r.1
    | Outcome.failed ↦ some (Outcome.failed, (op ∷ ops, r.1))
  ]

  module _ (c : Connection W) where
    unfoldable pub call :
        Transaction → Database S W R → Option (Outcome × (Transaction × Database S W R))
    unfolding call_requests
    call tx db = do
      let saved = c.get_auto_commit db.server
      let begun = record db { server = c.set_auto_commit false db.server }
      (outcome, (left, after)) ← call_requests tx.requests begun
      let ended = record tx { autocommit_state = saved; requests = left }
      elim outcome [
        | Outcome.failed ↦
            some (Outcome.failed, (ended, record after { server = c.rollback after.server }))
        | Outcome.done ↦
            some (Outcome.done, (ended, record after { server = c.commit after.server }))
      ]

    -- The destructor: with the requests that it leaks.
    unfoldable pub destroy : Transaction → Database S W R → List Operation × Database S W R
    unfolding free_loop
    destroy tx db = (
      free_loop 0 tx.requests,
      record db { server = c.set_auto_commit tx.autocommit_state db.server },
    )
