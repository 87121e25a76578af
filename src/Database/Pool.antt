-- ===== src/Database/Pool.antt =====
-- database/Database.h, DatabaseHolder: the pool of connections with their workers, and the queue that
-- they share. ACE's queue is a parameter; a connection's place in the vector stands for it.
use morfeusz.Base.{
  ℕ, zero, suc, ◌+◌, Bool, true, false, List, [], ◌∷◌, Option, none, some, leb, if◌then◌else◌,
}
use morfeusz.RealmSocket.{ℤ}
use morfeusz.Database.{Operation}
use morfeusz.Database.Sql.{TaskPriority}
use morfeusz.Database.Worker.{Request}

-- An operation with its priority.
record Pending : Type 0 where
  pub operation : Request
  pub priority : TaskPriority

-- ACE_Activation_Queue; dequeue gives `none` while nothing is queued, where a worker waits.
record ActivationQueue (Q : Type 0) : Type 0 where
  pub empty : Q
  pub enqueue : Pending → Q → Q
  pub dequeue : Q → Option (Pending × Q)
  pub close : Q → Q

record Pool (Q : Type 0) : Type 0 where
  pub connections : ℕ
  pub queue : Q

-- Less than 1 or more than 32 becomes 1.
pool_size : ℤ → ℕ
pool_size (ℤ.pos num) = if leb num 0 then 1 else if leb num 32 then num else 1
pool_size (ℤ.negsuc n) = 1

-- `connects` is whether the driver connects to the url, the first time, and `opens` what the open of
-- each connection returns: with what open returns, and the connections that are open.
opened_from : (ℕ → Bool) → ℕ → ℕ → List ℕ
opened_from opens i zero = []
opened_from opens i (suc left) =
    let rest = opened_from opens (i + 1) left in if opens i then i ∷ rest else rest

open_pool : {Q : Type 0} → Bool → (ℕ → Bool) → Pool Q → Bool × List ℕ
unfolding opened_from
open_pool connects opens p =
    if connects then (true, opened_from opens 0 p.connections) else (false, [])

module _ {Q : Type 0} (lib : ActivationQueue Q) where
  new_pool : ℤ → Pool Q
  unfolding pool_size
  new_pool num = record { connections = pool_size num; queue = lib.empty }

  -- An operation's priority is 0, which is low, unless it is set.
  enqueue : Request → Pool Q → Pool Q
  enqueue sql_op p = record p {
    queue =
        lib.enqueue (record { operation = sql_op; priority = TaskPriority.priority_low }) p.queue;
  }

  enqueue_with_priority : Request → TaskPriority → Pool Q → Pool Q
  enqueue_with_priority sql_op prio p = record p {
    queue = lib.enqueue (record { operation = sql_op; priority = prio }) p.queue;
  }

  -- The part before the wait, with the future that is waited for; `fresh` is a new one.
  enqueue_synch_query : Operation → TaskPriority → ℕ → Pool Q → ℕ × Pool Q
  unfolding enqueue enqueue_with_priority
  enqueue_synch_query sql_op prio fresh p =
      let future : ℕ = elim sql_op.result [ none ↦ fresh | some given ↦ given ] in
      let asked = Request.request (record sql_op { result = some future }) in
      (
        future,
        elim prio [
          | TaskPriority.priority_low ↦ enqueue asked p
          | TaskPriority.priority_medium ↦
              enqueue_with_priority asked TaskPriority.priority_medium p
          | TaskPriority.priority_high ↦ enqueue_with_priority asked TaskPriority.priority_high p
        ],
      )

  -- close, which always returns true.
  close : Pool Q → Bool × Pool Q
  close p = (true, record p { queue = lib.close p.queue })
