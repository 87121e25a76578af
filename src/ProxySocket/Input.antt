-- ===== src/ProxySocket/Input.antt =====
-- proxyd/Proxy_Socket.cpp: handle_input and process_incoming, on what recv returns. `none` is an access
-- past raw_buf, to a deleted packet or by a null pointer, or a failed ASSERT.
pub mod Split
use morfeusz.Base.{
  ℕ, ◌+◌, ◌-◌, ◌%◌, ◌^◌, Bool, true, false, ◌||◌, List, [], ◌∷◌, ◌++◌, Option, none, some, ◌>>=◌,
  ltb, leb, ◌==◌, if◌then◌else◌, take, drop, length, replicate,
}
use morfeusz.Endian.{Host, load, endian_convert, endian_convert_reverse}
use morfeusz.ByteBuffer.{ByteBuffer, write_at, append_bytes}
use morfeusz.Packet.{new_client_pkt, peek_size, peek_opcode}
use morfeusz.TbcCrypto.{TbcCrypto, decrypt}

-- in_packet, which keeps its value when the packet is deleted.
pub data Slot : Type 0 where
  null deleted : Slot
  packet : ByteBuffer → Slot

-- -1, or the bytes.
pub data Received : Type 0 where
  failed : Received
  data_read : List ℕ → Received

-- The handlers of process_incoming.
pub data Command : Type 0 where
  auth_session ping realm_split char_enum char_create played_time unhandled : Command

-- `processed` are the packets that were handed to a handler.
pub record Reader : Type 0 where
  pub expected_data : ℕ
  pub raw_buf : List ℕ
  pub in_packet : Slot
  pub crypto : TbcCrypto
  pub processed : List (Command × ByteBuffer)

-- 0 and -1 to the reactor.
pub data Input : Type 0 where
  going_on closing : Input

unfoldable pub command_of : ℕ → Command
command_of op =
    if op == 0x1ED
    then Command.auth_session
    else if op == 0x1DC
    then Command.ping
    else if op == 0x38C
    then Command.realm_split
    else if op == 0x37
    then Command.char_enum
    else if op == 0x36
    then Command.char_create
    else if op == 0x1CC
    then Command.played_time
    else Command.unhandled

unfoldable pub process_incoming : Host → Reader → Option Reader
unfolding command_of
process_incoming host r = elim r.in_packet [
  | Slot.null ↦ some r
  | Slot.deleted ↦ none
  | Slot.packet b ↦
      (peek_opcode host b >>= λ p. some (record r {
        in_packet = Slot.deleted;
        processed = r.processed ++ (command_of p.0, p.1) ∷ [];
      }))
]

-- The header in raw_buf, deciphered and in the machine's byte order.
unfoldable pub receive_header : Host → Reader → Option Reader
receive_header host r = do
  (plain, crypto) ← decrypt (take 6 r.raw_buf) r.crypto
  let size = endian_convert_reverse host 2 (take 2 plain)
  let cmd = endian_convert host 4 (take 4 (drop 2 plain))
  some (record r { raw_buf = write_at r.raw_buf 0 (size ++ cmd); crypto = crypto })

-- recv into raw_buf at an offset; with the count as a size_t, in which -1 is its largest value.
unfoldable pub receive : ℕ → Received → Reader → Option (ℕ × Reader)
receive at Received.failed r = some (2 ^ 64 - 1, r)
receive at (Received.data_read bytes) r =
    if leb (at + length bytes) 4096
    then some (length bytes, record r { raw_buf = write_at r.raw_buf at bytes })
    else none

-- What follows the header: the rest that came with it.
unfoldable pub begin_packet : Host → ℕ → Reader → Option (Input × Reader)
begin_packet host bytes_read r = do
  b ← append_bytes (take ((bytes_read + 6) % 2 ^ 64) r.raw_buf) new_client_pkt
  (declared, b) ← peek_size host b
  (if (bytes_read + 4) % 2 ^ 64 == declared
      then (process_incoming host (record r { in_packet = Slot.packet b }) >>= λ after.
          some (Input.going_on, after))
      else some (
        Input.going_on,
        record r {
          in_packet = Slot.packet b;
          expected_data = (declared + 2 ^ 65 - bytes_read - 4) % 2 ^ 64;
        },
      ))

-- `first` and `second` are what the calls of recv return.
unfoldable pub handle_input : Host → Received → Received → Reader → Option (Input × Reader)
handle_input host first second r =
    if r.expected_data == 0
    then (do
      (bytes_read, r) ← receive 0 first r
      (if ltb bytes_read 6 then some (Input.closing, r) else (do
        r ← receive_header host r
        (bytes_read, r) ← receive 6 second r
        begin_packet host bytes_read r)))
    else (do
      (bytes_read, r) ← receive 0 first r
      (if bytes_read == 2 ^ 64 - 1 || bytes_read == 0
          then some (Input.closing, r)
          else elim r.in_packet [
            | Slot.null ↦ none
            | Slot.deleted ↦ none
            | Slot.packet b ↦ (do
              b ← append_bytes (take bytes_read r.raw_buf) b
              let filled = record r { in_packet = Slot.packet b }
              (if bytes_read == r.expected_data
                  then (process_incoming host filled >>= λ after. some (Input.going_on, after))
                  else some (
                    Input.going_on,
                    record filled { expected_data = r.expected_data - bytes_read },
                  )))
          ]))
