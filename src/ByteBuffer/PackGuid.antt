-- ===== src/ByteBuffer/PackGuid.antt =====
-- common/ByteBuffer.h, appendPackGUID: the nonzero bytes of a number behind a mask of their places.
pub mod Bits
pub mod RoundTrip
use morfeusz.Base.{
  ℕ, zero, suc, ◌+◌, ◌/◌, ◌%◌, ◌^◌, Option, some, ◌>>=◌, bit_or, ◌==◌, if◌then◌else◌, get_or, set,
  u8,
}
use morfeusz.Endian.{Host}
use morfeusz.ByteBuffer.{ByteBuffer, append}

-- _storage[pos] |= bits
unfoldable pub or_at : ℕ → ℕ → ByteBuffer → ByteBuffer
or_at pos bits b = record b { storage = set b.storage pos (bit_or (get_or b.storage pos 0) bits) }

-- One turn of the loop.
unfoldable pub pack_byte : Host → ℕ → ℕ → ℕ → ByteBuffer → Option ByteBuffer
unfolding or_at
pack_byte host i mask_position guid b =
    if guid % 256 == 0
    then some b
    else append host 1 (guid % 256) (or_at mask_position (u8 (2 ^ i)) b)

unfoldable pub pack_loop : Host → ℕ → ℕ → ℕ → ℕ → ByteBuffer → Option ByteBuffer
unfolding pack_byte
pack_loop host zero i mask_position guid b = some b
pack_loop host (suc left) i mask_position guid b = do
  b ← pack_byte host i mask_position guid b
  pack_loop host left (i + 1) mask_position (guid / 256) b

unfoldable pub append_pack_guid : Host → ℕ → ByteBuffer → Option ByteBuffer
unfolding pack_loop
append_pack_guid host guid b =
    let mask_position = b.wpos in do b ← append host 1 0 b; pack_loop host 8 0 mask_position guid b
