-- ===== src/ByteBuffer.antt =====
-- common/ByteBuffer.h, class ByteBuffer. The vector's contents are `storage`; its capacity, which
-- the constructors and reserve() set, is not modelled. `none` is a failed ASSERT, which aborts, or,
-- where a position and a length wrap around in the ASSERT's sum of size_t, the copy past the vector
-- that follows the ASSERT. Appending is described where _wpos + cnt does not wrap around.
-- `&storage[i]` past the end is only formed where the tests before it allow no byte to be copied.
pub mod Append
pub mod Fields
pub mod Typed
pub mod Reading
pub mod Containers
pub mod PackGuid
pub mod Text
use morfeusz.Base.{
  ℕ, zero, suc, ◌+◌, ◌-◌, Bool, true, false, List, [], ◌∷◌, ◌++◌, Option, none, some, ◌>>=◌, ◌>>◌,
  guard, ltb, leb, ◌==◌, if◌then◌else◌, length, take, drop, replicate,
}
use morfeusz.Endian.{Host, endian_convert, store, load}

pub record ByteBuffer : Type 0 where
  pub storage : List ℕ
  pub rpos : ℕ
  pub wpos : ℕ

-- ByteBuffer() and ByteBuffer(size_t res); clear().
abbrev pub empty : ByteBuffer
empty = record { storage = []; rpos = 0; wpos = 0 }

-- std::vector::resize, memcpy(&storage[pos], src, cnt), and a block of memory read back.
unfoldable pub resize_to : ℕ → List ℕ → List ℕ
resize_to n xs = take n xs ++ replicate (n - length xs) 0

unfoldable pub write_at : List ℕ → ℕ → List ℕ → List ℕ
write_at xs pos src = take pos xs ++ (src ++ drop (pos + length src) xs)

unfoldable pub block : List ℕ → ℕ → ℕ → List ℕ
block xs pos cnt = take cnt (drop pos xs)

abbrev pub size : ByteBuffer → ℕ
size b = length b.storage

-- rpos(size_t) and wpos(size_t), which test nothing and return what they set.
unfoldable pub set_rpos : ℕ → ByteBuffer → ℕ × ByteBuffer
set_rpos rpos_ b = (rpos_, record b { rpos = rpos_ })

unfoldable pub set_wpos : ℕ → ByteBuffer → ℕ × ByteBuffer
set_wpos wpos_ b = (wpos_, record b { wpos = wpos_ })

-- append(const uint8*, size_t)
unfoldable pub append_bytes : List ℕ → ByteBuffer → Option ByteBuffer
append_bytes src b =
    let cnt = length src in
    let grown =
      if ltb (size b) (b.wpos + cnt) then resize_to (b.wpos + cnt) b.storage else b.storage in
    if cnt == 0
    then some b
    else if ltb (size b) 10000000
    then some (record b { storage = write_at grown b.wpos src; wpos = b.wpos + cnt })
    else none

-- append<T>(T), which every `<<` of an integer calls; `n` is sizeof(T).
unfoldable pub append : Host → ℕ → ℕ → ByteBuffer → Option ByteBuffer
append host n value b = append_bytes (endian_convert host n (store host n value)) b

-- `<<` of a std::string: its bytes and a zero.
unfoldable pub append_string : Host → List ℕ → ByteBuffer → Option ByteBuffer
append_string host text b = do b ← append_bytes text b; append host 1 0 b

-- append(const ByteBuffer&)
pub append_buffer : ByteBuffer → ByteBuffer → Option ByteBuffer
append_buffer other b = if 0 == size other then some b else append_bytes other.storage b

-- put(size_t, const uint8*, size_t) and put<T>
unfoldable pub put_bytes : ℕ → List ℕ → ByteBuffer → Option ByteBuffer
put_bytes pos src b =
    if leb (pos + length src) (size b)
    then some (record b { storage = write_at b.storage pos src })
    else none

unfoldable pub put : Host → ℕ → ℕ → ℕ → ByteBuffer → Option ByteBuffer
put host pos n value b = put_bytes pos (endian_convert host n (store host n value)) b

-- read<T>(size_t) const
unfoldable pub read_at : Host → ℕ → ℕ → ByteBuffer → Option ℕ
read_at host pos n b =
    if leb (pos + n) (size b)
    then some (load host (endian_convert host n (block b.storage pos n)))
    else none

-- read<T>()
unfoldable pub read : Host → ℕ → ByteBuffer → Option (ℕ × ByteBuffer)
read host n b = do r ← read_at host b.rpos n b; some (r, record b { rpos = b.rpos + n })

-- read(uint8*, size_t)
unfoldable pub read_bytes : ℕ → ByteBuffer → Option (List ℕ × ByteBuffer)
read_bytes len b =
    if leb (b.rpos + len) (size b)
    then some (block b.storage b.rpos len, record b { rpos = b.rpos + len })
    else none

-- The loop of `>>` into a std::string, on fuel; `none` is also what a lack of fuel gives.
unfoldable pub read_string_loop : Host → ℕ → List ℕ → ByteBuffer → Option (List ℕ × ByteBuffer)
read_string_loop host zero value b = none
read_string_loop host (suc fuel) value b =
    let rest = (do
      (c, b') ← read host 1 b
      if c == 0 then some (value, b') else read_string_loop host fuel (value ++ c ∷ []) b') in
    if ltb b.rpos (size b) then rest else some (value, b)

unfoldable pub read_string : Host → ByteBuffer → Option (List ℕ × ByteBuffer)
read_string host b = read_string_loop host (suc (size b)) [] b

-- resize(size_t)
unfoldable pub resize : ℕ → ByteBuffer → ByteBuffer
resize newsize b =
    let s = resize_to newsize b.storage in record { storage = s; rpos = 0; wpos = length s }
