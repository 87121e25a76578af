-- ===== src/Packet.antt =====
-- common/ByteBuffer.h, the classes ClientPkt and ServerPkt.
pub mod Header
use morfeusz.Base.{ℕ, ◌+◌, Bool, List, [], Option, none, some, ◌>>=◌, u16, leb}
use morfeusz.Endian.{Host, endian_convert, endian_convert_reverse, store, load}
use morfeusz.ByteBuffer.{ByteBuffer, append, append_bytes, read, empty}

-- ClientPkt(size_t) and ClientPkt(): reading starts behind the six bytes of the header.
pub new_client_pkt : ByteBuffer
new_client_pkt = record { storage = []; rpos = 6; wpos = 0 }

-- PeekOpcode() and PeekSize(), which put the read position back.
unfoldable pub peek_opcode : Host → ByteBuffer → Option (ℕ × ByteBuffer)
peek_opcode host b =
    let tmp = b.rpos in
    do (ret, b') ← read host 4 (record b { rpos = 2 }); some (ret, record b' { rpos = tmp })

pub peek_size : Host → ByteBuffer → Option (ℕ × ByteBuffer)
peek_size host b =
    let tmp = b.rpos in
    do (ret, b') ← read host 2 (record b { rpos = 0 }); some (ret, record b' { rpos = tmp })

-- CheckSize(size_t)
pub check_size : Host → ℕ → ByteBuffer → Option (Bool × ByteBuffer)
check_size host siz b = do (have, b') ← peek_size host b; some (leb siz have, b')

-- A variable after EndianConvert or EndianConvertReverse.
pub converted : Host → ℕ → ℕ → ℕ
converted host n v = load host (endian_convert host n (store host n v))

pub converted_reverse : Host → ℕ → ℕ → ℕ
converted_reverse host n v = load host (endian_convert_reverse host n (store host n v))

-- SetOpcode(uint16): the value is converted here and again by append.
pub set_opcode : Host → ℕ → ByteBuffer → Option ByteBuffer
set_opcode host op b =
    let tmp = b.wpos in
    do
      b' ← append host 2 (converted host 2 op) (record b { wpos = 2 })
      some (record b' { wpos = tmp })

-- SetSize(uint16): the size field counts the two bytes of the opcode too, in sixteen bits.
pub set_size : Host → ℕ → ByteBuffer → Option ByteBuffer
set_size host size b =
    let tmp = b.wpos in
    do
      b' ← append host 2 (converted_reverse host 2 (u16 (u16 size + 2))) (record b { wpos = 0 })
      some (record b' { wpos = tmp })

-- ServerPkt(uint16, size_t)
pub new_server_pkt : Host → ℕ → ℕ → Option ByteBuffer
new_server_pkt host op siz = do
  b ← set_opcode host op (record { storage = []; rpos = 0; wpos = 4 })
  set_size host siz b

-- Opcode() and Size()
pub opcode : Host → ByteBuffer → Option (ℕ × ByteBuffer)
opcode host b =
    let tmp = b.rpos in
    do (ret, b') ← read host 2 (record b { rpos = 2 }); some (ret, record b' { rpos = tmp })

pub size_field : Host → ByteBuffer → Option (ℕ × ByteBuffer)
size_field host b =
    let tmp = b.rpos in
    do
      (ret, b') ← read host 2 (record b { rpos = 0 })
      some (converted_reverse host 2 ret, record b' { rpos = tmp })
