-- ===== src/RealmSocket/Output.antt =====
-- realmd/Realm_Socket.cpp, handle_output: what the peer gets of the queue, and what stays in it.
-- The i-th call of peer().send takes `sent i` bytes, or fails where that is `none`.
pub mod Active
pub mod Sending
use morfeusz.Base.{
  ℕ, ◌+◌, ◌-◌, Bool, true, false, ◌&&◌, List, [], ◌∷◌, ◌++◌, Option, none, some, ◌>>=◌, ltb, ◌==◌,
  if◌then◌else◌, take,
}
use morfeusz.ByteBuffer.{ByteBuffer, size, read_bytes, write_at, resize}
use morfeusz.RealmSocket.{Call, Socket, call}

-- The bytes on the wire, the queue left, and whether a call failed.
pub record Flushed : Type 0 where
  pub wire : List ℕ
  pub queue : List ByteBuffer
  pub failed : Bool

-- rpos(sent - 1), read into the buffer's own start, and resize. memcpy of an overlap is taken to
-- copy the bytes as they were; `none` is read's failed ASSERT.
pub keep_rest : ℕ → ByteBuffer → Option ByteBuffer
keep_rest n buffer = do
  (bytes, moved) ← read_bytes (size buffer - n) (record buffer { rpos = n - 1 })
  some (resize (size buffer - n) (record moved { storage = write_at moved.storage 0 bytes }))

pub flush : (ℕ → Option ℕ) → ℕ → List ByteBuffer → Option Flushed
flush sent i [] = some (record { wire = []; queue = []; failed = false })
flush sent i (buffer ∷ queue) =
    let rest = flush sent (i + 1) queue in
    elim (sent i) [
      | none ↦ some (record { wire = []; queue = buffer ∷ queue; failed = true })
      | some n ↦
          if ltb n (size buffer) && ltb 0 n
          then (keep_rest n buffer >>= λ kept.
              some (record { wire = take n buffer.storage; queue = kept ∷ queue; failed = false }))
          else (rest >>= λ r. some (record r { wire = take n buffer.storage ++ r.wire }))
    ]

-- 0, 1 or -1 to the reactor.
pub data Output : Type 0 where
  drained pending broken : Output

pub finish : Socket → Flushed → Output × Socket
finish c r =
    let left = record c { packet_queue = r.queue } in
    if r.failed then (Output.broken, left) else elim r.queue [
      | [] ↦ (Output.drained, record (call Call.cancel_write left) { out_active = false })
      | _ ∷ _ ↦ (Output.pending, left)
    ]

pub handle_output : (ℕ → Option ℕ) → Socket → Option (List ℕ × (Output × Socket))
handle_output sent c =
    let result = flush sent 0 c.packet_queue in
    if c.out_active
    then (result >>= λ r. some (r.wire, finish c r))
    else some ([], (Output.drained, c))
