-- ===== src/ProxySocket/Input/Split.antt =====
-- proxyd/Proxy_Socket.cpp, handle_input: a packet that comes in parts.
use morfeusz.Base.{
  ℕ, ◌+◌, ◌-◌, ◌^◌, ◌≤◌, ◌<◌, ◌≡◌, refl, true, false, List, [], ◌∷◌, ◌++◌, none, some, arith, leb,
  ◌==◌, take, drop, length, take-append_length,
}
use morfeusz.Endian.{Host}
use morfeusz.ByteBuffer.{ByteBuffer, write_at, append_bytes}
use morfeusz.Packet.{peek_opcode}
use morfeusz.ProxySocket.Input.{
  Slot, Received, Reader, Input, command_of, process_incoming, receive, handle_input,
}

-- What recv of some bytes leaves.
abbrev pub received : List ℕ → Reader → Reader
received bytes r = record r { raw_buf = write_at r.raw_buf 0 bytes }

receive_lem :
    (bytes : List ℕ) (r : Reader)
    → length bytes ≤ 4096
    → receive 0 (Received.data_read bytes) r ≡ some (length bytes, received bytes r)
unfolding receive
receive_lem bytes r h = let fits : leb (0 + length bytes) 4096 ≡ true = ground arith in rw fits refl

-- Bytes for a packet that has been deleted.
handle_input-deleted :
    (host : Host) (bytes : List ℕ) (second : Received) (r : Reader)
    → 0 < length bytes
    → length bytes ≤ 4096
    → 0 < r.expected_data
    → r.in_packet ≡ Slot.deleted
    → handle_input host (Received.data_read bytes) second r ≡ none
unfolding handle_input
handle_input-deleted host bytes second r some_bytes few waits gone =
    let more : (r.expected_data == 0) ≡ false = ground arith in
    let whole : (length bytes == 2 ^ 64 - 1) ≡ false = ground arith in
    let any : (length bytes == 0) ≡ false = ground arith in
    rw (more, receive_lem bytes r few, whole, any, gone) refl

-- If exactly the bytes that a packet still waits for come, at most 4096, and can be appended to it, and
-- its opcode can then be read, the packet is handed to its handler; and whatever bytes come next, at
-- least one and at most 4096, they are for the packet that has been deleted.
pub handle_input-last_part :
    (host : Host) (bytes next : List ℕ) (second third : Received) (r : Reader)
    (b whole : ByteBuffer) (op : ℕ)
    → r.in_packet ≡ Slot.packet b
    → r.expected_data ≡ length bytes
    → 0 < length bytes
    → length bytes ≤ 4096
    → append_bytes bytes b ≡ some whole
    → (end : ByteBuffer) → peek_opcode host whole ≡ some (op, end)
    → 0 < length next
    → length next ≤ 4096
    → (done : Reader) × (handle_input host (Received.data_read bytes) second r
        ≡ some (Input.going_on, done))
      × (done.processed ≡ r.processed ++ (command_of op, end) ∷ [])
      × (handle_input host (Received.data_read next) third done ≡ none)
unfolding handle_input process_incoming
handle_input-last_part host bytes next second third r b whole op live e some_bytes few app end
      opcode more short =
    let waits : (r.expected_data == 0) ≡ false = ground arith in
    let big : (length bytes == 2 ^ 64 - 1) ≡ false = ground arith in
    let any : (length bytes == 0) ≡ false = ground arith in
    let all : (length bytes == r.expected_data) ≡ true = ground arith in
    let mine : take (length bytes) (write_at r.raw_buf 0 bytes) ≡ bytes =
      unfold write_at in take-append_length bytes (drop (0 + length bytes) r.raw_buf) in
    let done = record (received bytes r) {
      in_packet = Slot.deleted;
      processed = r.processed ++ (command_of op, end) ∷ [];
    } in
    (
      done,
      rw (waits, receive_lem bytes r few, big, any, live, mine, app, all, opcode) refl,
      refl,
      handle_input-deleted host next third done more short (omega (arith, e)) refl,
    )
