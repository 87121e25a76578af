-- ===== src/ProxySocket.antt =====
-- proxyd/Proxy_Socket.cpp: what a client's connection to the proxy queues and writes. `calls` are
-- the reactor's operations, in order. ProxySession has the handlers that ask the database; Input is
-- the reading.
pub mod Sending
pub mod Input
use morfeusz.Base.{
  ℕ, ◌+◌, ◌-◌, ◌%◌, ◌^◌, Bool, true, false, ◌&&◌, List, [], ◌∷◌, ◌++◌, Option, none, some, ◌>>=◌,
  ltb, if◌then◌else◌, take, length,
}
use morfeusz.Endian.{Host}
use morfeusz.ByteBuffer.{ByteBuffer, size, append, append_string, read}
use morfeusz.Packet.{new_server_pkt, set_size}
use morfeusz.TbcCrypto.{TbcCrypto, encrypt}
use morfeusz.RealmSocket.Output.{keep_rest}

pub data Call : Type 0 where
  register_write cancel_write : Call

pub record ProxySocket : Type 0 where
  pub crypto : TbcCrypto
  pub packet_queue : List ByteBuffer
  pub out_active : Bool
  pub continue_send : Bool
  pub calls : List Call

-- send(ByteBuffer*)
pub send : ByteBuffer → ProxySocket → ProxySocket
send pkt c =
    let queued = record c { packet_queue = c.packet_queue ++ pkt ∷ [] } in
    if c.out_active
    then queued
    else record queued { out_active = true; calls = c.calls ++ Call.register_write ∷ [] }

-- handle_cmsg_ping, on the packet that came in.
pub handle_cmsg_ping : Host → ByteBuffer → ProxySocket → Option ProxySocket
handle_cmsg_ping host in_packet c = do
  (seq, in_packet) ← read host 4 in_packet
  pkt ← new_server_pkt host 0x1DD 4
  pkt ← append host 4 seq pkt
  some (send pkt c)

-- handle_cmsg_realm_split: the date is "01/01/01".
pub handle_cmsg_realm_split : Host → ByteBuffer → ProxySocket → Option ProxySocket
handle_cmsg_realm_split host in_packet c =
    let date = 48 ∷ 49 ∷ 47 ∷ 48 ∷ 49 ∷ 47 ∷ 48 ∷ 49 ∷ [] in
    do
      (unk, in_packet) ← read host 4 in_packet
      pkt ← new_server_pkt host 0x38B (4 + 4 + length date + 1)
      pkt ← append host 4 unk pkt
      pkt ← append host 4 0 pkt
      pkt ← append_string host date pkt
      some (send pkt c)

pub handle_cmsg_played_time : Host → ProxySocket → Option ProxySocket
handle_cmsg_played_time host c = do
  pkt ← new_server_pkt host 0x1CD 8
  pkt ← append host 4 0 pkt
  pkt ← append host 4 0 pkt
  some (send pkt c)

-- The bytes on the wire, and what the loop of handle_output leaves in the socket.
pub record Written : Type 0 where
  pub wire : List ℕ
  pub queue : List ByteBuffer
  pub failed : Bool
  pub crypto : TbcCrypto
  pub continue_send : Bool

-- SetSize(buffer->size() - 4), in a size_t, and encrypt unless the packet goes on.
pub seal : Host → Bool → ByteBuffer → TbcCrypto → Option (ByteBuffer × TbcCrypto)
seal host continue_send buffer crypto = do
  buffer ← set_size host ((size buffer + 2 ^ 64 - 4) % 2 ^ 64) buffer
  (if continue_send
      then some (buffer, crypto)
      else (encrypt buffer.storage crypto >>= λ r. some (record buffer { storage = r.0 }, r.1)))

-- The i-th call of peer().send takes `sent i` bytes, or fails where that is `none`.
pub write : Host → (ℕ → Option ℕ) → ℕ → Bool → TbcCrypto → List ByteBuffer → Option Written
write host sent i continue_send crypto [] = some (record {
  wire = [];
  queue = [];
  failed = false;
  crypto = crypto;
  continue_send = continue_send;
})
write host sent i continue_send crypto (buffer ∷ queue) =
    let rest = λ (c : TbcCrypto). write host sent (i + 1) false c queue in
    do
      (buffer, crypto) ← seal host continue_send buffer crypto
      elim (sent i) [
        | none ↦ some (record {
          wire = [];
          queue = buffer ∷ queue;
          failed = true;
          crypto = crypto;
          continue_send = false;
        })
        | some n ↦
            if ltb n (size buffer) && ltb 0 n
            then (keep_rest n buffer >>= λ kept. some (record {
              wire = take n buffer.storage;
              queue = kept ∷ queue;
              failed = false;
              crypto = crypto;
              continue_send = true;
            }))
            else (rest crypto >>= λ r. some (record r { wire = take n buffer.storage ++ r.wire }))
      ]

-- 0, 1 or -1 to the reactor.
pub data Output : Type 0 where
  drained pending broken : Output

pub finish : ProxySocket → Written → Output × ProxySocket
finish c r =
    let left = record c {
      packet_queue = r.queue;
      crypto = r.crypto;
      continue_send = r.continue_send;
    } in
    if r.failed then (Output.broken, left) else elim r.queue [
      | [] ↦ (
        Output.drained,
        record left { out_active = false; calls = c.calls ++ Call.cancel_write ∷ [] },
      )
      | _ ∷ _ ↦ (Output.pending, left)
    ]

pub handle_output : Host → (ℕ → Option ℕ) → ProxySocket → Option (List ℕ × (Output × ProxySocket))
handle_output host sent c = do
  r ← write host sent 0 c.continue_send c.crypto c.packet_queue
  some (r.wire, finish c r)
