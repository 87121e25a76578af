-- ===== src/Database/Worker.antt =====
-- database/Database.cpp, DatabaseWorker::svc: what a worker does with the operations it dequeues.
use morfeusz.Base.{ℕ, Bool, true, false, List, [], ◌∷◌, Option, none, some, ◌>>=◌}
use morfeusz.Endian.{Host}
use morfeusz.Database.{Operation}
use morfeusz.Database.Driver.{Driver}
use morfeusz.Database.Execute.{Database, execute}
use morfeusz.Database.Transaction.{Connection, Transaction, call, destroy}

-- SqlOperationRequest and SqlOperationTransaction.
pub data Request : Type 0 where
  request : Operation → Request
  transaction : Transaction → Request

module _ (host : Host) (double_of : ℕ → ℕ) {S W R : Type 0} (d : Driver S W R)
    (c : Connection W) where
  -- request->call() and the delete, whatever the outcome.
  unfoldable pub perform : Request → Database S W R → Option (Database S W R)
  perform (Request.request op) db = execute host double_of d op db >>= λ r. some r.1
  perform (Request.transaction tx) db =
      call host double_of d c tx db >>= λ r. some (destroy host double_of d c r.1.0 r.1.1).1

  -- With what the calls of dequeue return, in order; null ends the loop. False: still waiting.
  unfoldable pub svc : List (Option Request) → Database S W R → Option (Bool × Database S W R)
  unfolding perform
  svc [] db = some (false, db)
  svc (none ∷ rest) db = some (true, db)
  svc (some r ∷ rest) db = perform r db >>= λ after. svc rest after
