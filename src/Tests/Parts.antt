-- ===== src/Tests/Parts.antt =====
-- A ping that comes to the proxy in two parts.
use morfeusz.Base.{ℕ, ◌≡◌, refl, List, [], ◌∷◌, ◌++◌, none, some, arith, le_value}
use morfeusz.Endian.{Host, load, endian_convert}
use morfeusz.ByteBuffer.{ByteBuffer, append_bytes, write_at, resize_to, block, read, read_at}
use morfeusz.Packet.{peek_opcode}
use morfeusz.ProxySocket.Input.{Slot, Received, Command, Reader, Input, command_of, handle_input}
use morfeusz.ProxySocket.Input.Split.{handle_input-last_part}
use morfeusz.Tests.Proxy.{keyed}

abbrev header : List ℕ
header = 0 ∷ 12 ∷ 0xDC ∷ 1 ∷ 0 ∷ 0 ∷ []

abbrev begun : ByteBuffer
begun = record { storage = header; rpos = 6; wpos = 6 }

abbrev whole : ByteBuffer
whole = record { storage = header ++ 5 ∷ 0 ∷ 0 ∷ 0 ∷ 9 ∷ 0 ∷ 0 ∷ 0 ∷ []; rpos = 6; wpos = 14 }

abbrev reader : Reader
reader = record {
  expected_data = 8;
  raw_buf = [];
  in_packet = Slot.packet begun;
  crypto = keyed;
  processed = [];
}

handle_input-last_part_example :
    (done : Reader) × (handle_input Host.little
        (Received.data_read (5 ∷ 0 ∷ 0 ∷ 0 ∷ 9 ∷ 0 ∷ 0 ∷ 0 ∷ []))
        Received.failed
        reader
      ≡ some (Input.going_on, done))
    × (done.processed ≡ [] ++ (Command.ping, whole) ∷ [])
    × (handle_input Host.little (Received.data_read (0 ∷ [])) Received.failed done ≡ none)
unfolding command_of append_bytes write_at resize_to peek_opcode read read_at load le_value
    endian_convert block
handle_input-last_part_example =
    handle_input-last_part Host.little (5 ∷ 0 ∷ 0 ∷ 0 ∷ 9 ∷ 0 ∷ 0 ∷ 0 ∷ []) (0 ∷ []) Received.failed
      Received.failed reader begun whole 0x1DC refl refl (omega arith) (omega arith) refl whole refl
      (omega arith) (omega arith)
