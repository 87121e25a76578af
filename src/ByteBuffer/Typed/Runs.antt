-- ===== src/ByteBuffer/Typed/Runs.antt =====
-- common/ByteBuffer.h: the operations of a buffer, one after the other in any order.
use morfeusz.Base.{
  Yields, Yields-bind, ℕ, ◌^◌, ◌≤◌, ◌<◌, List, [], ◌∷◌, Option, none, some, ◌>>=◌, AllBytes, arith,
  length,
}
use morfeusz.Endian.{Host}
use morfeusz.ByteBuffer.{
  ByteBuffer, append_bytes, append, append_string, append_buffer, put_bytes, put, read_at, read,
  read_bytes, read_string, resize, empty, set_rpos, set_wpos,
}
use morfeusz.ByteBuffer.Typed.{
  IsBuffer, append_bytes-IsBuffer, append-IsBuffer, append_string-IsBuffer, append_buffer-IsBuffer,
  put_bytes-IsBuffer, resize-IsBuffer, integer-AllBytes,
}
use morfeusz.ByteBuffer.Typed.Calls.{
  Number, Text, read_at-below, read-IsBuffer, read_bytes-IsBuffer, read_string-IsBuffer,
}

-- The calls: `<<` of an integer, of a block, of a text and of a buffer, put of an integer and of a
-- block, resize, clear, the setters rpos and wpos, `>>` of an integer and of a block, read at a
-- position, which is operator[] too, and `>>` of a text. `n` is the size of an integer's type.
pub data Call : Type 0 where
  integer : ℕ → ℕ → Call
  bytes text : List ℕ → Call
  buffer : ByteBuffer → Call
  integer_at : ℕ → ℕ → ℕ → Call
  bytes_at : ℕ → List ℕ → Call
  resized rpos_to wpos_to : ℕ → Call
  cleared : Call
  get get_bytes : ℕ → Call
  get_at : ℕ → ℕ → Call
  get_text : Call

-- What a call returns.
pub data Returned : Type 0 where
  nothing : Returned
  number : ℕ → Returned
  octets : List ℕ → Returned

-- What the types of the arguments say; and the setters, which test nothing, are given positions
-- inside the buffer that they meet.
abbrev pub IsTyped : Call → ByteBuffer → Type 0
IsTyped (Call.bytes src) b = AllBytes src
IsTyped (Call.text src) b = AllBytes src
IsTyped (Call.buffer other) b = IsBuffer other
IsTyped (Call.bytes_at pos src) b = AllBytes src
IsTyped (Call.rpos_to n) b = n ≤ length b.storage
IsTyped (Call.wpos_to n) b = n ≤ length b.storage
IsTyped _ b = Unit {0}

-- What the type of the result says.
abbrev pub IsReturned : Call → Returned → Type 0
IsReturned (Call.get n) (Returned.number v) = v < 256 ^ n
IsReturned (Call.get_at pos n) (Returned.number v) = v < 256 ^ n
IsReturned (Call.get_bytes n) (Returned.octets s) = AllBytes s
IsReturned Call.get_text (Returned.octets s) = AllBytes s
IsReturned _ _ = Unit {0}

abbrev pub AllReturned : List Call → List Returned → Type 0
AllReturned (call ∷ calls) (r ∷ rs) = IsReturned call r × AllReturned calls rs
AllReturned _ _ = Unit {0}

-- A call without a result.
abbrev quietly : Option ByteBuffer → Option (Returned × ByteBuffer)
quietly x = x >>= λ b. some (Returned.nothing, b)

unfoldable pub run_call : Host → Call → ByteBuffer → Option (Returned × ByteBuffer)
unfolding append_string append_buffer put put_bytes read_at read read_bytes read_string resize
    set_rpos set_wpos
run_call host (Call.integer n v) b = quietly (append host n v b)
run_call host (Call.bytes src) b = quietly (append_bytes src b)
run_call host (Call.text src) b = quietly (append_string host src b)
run_call host (Call.buffer other) b = quietly (append_buffer other b)
run_call host (Call.integer_at pos n v) b = quietly (put host pos n v b)
run_call host (Call.bytes_at pos src) b = quietly (put_bytes pos src b)
run_call host (Call.resized n) b = quietly (some (resize n b))
run_call host Call.cleared b = quietly (some empty)
run_call host (Call.rpos_to n) b = let (r, moved) = set_rpos n b in some (Returned.number r, moved)
run_call host (Call.wpos_to n) b = let (r, moved) = set_wpos n b in some (Returned.number r, moved)
run_call host (Call.get n) b = read host n b >>= λ r. some (Returned.number r.0, r.1)
run_call host (Call.get_at pos n) b = read_at host pos n b >>= λ v. some (Returned.number v, b)
run_call host (Call.get_bytes len) b = read_bytes len b >>= λ r. some (Returned.octets r.0, r.1)
run_call host Call.get_text b = read_string host b >>= λ r. some (Returned.octets r.0, r.1)

unfoldable pub run_calls : Host → List Call → ByteBuffer → Option (List Returned × ByteBuffer)
unfolding run_call
run_calls host [] b = some ([], b)
run_calls host (call ∷ calls) b = do
  (r, b) ← run_call host call b
  (rs, b) ← run_calls host calls b
  some (r ∷ rs, b)

-- Every call of a run is typed for the buffer that it meets.
abbrev pub AllTyped : Host → List Call → ByteBuffer → Type 0
AllTyped host [] b = Unit {0}
AllTyped host (call ∷ calls) b =
    IsTyped call b
    × Yields (λ (r : Returned × ByteBuffer). AllTyped host calls r.1) (run_call host call b)

abbrev Done : Call → Returned × ByteBuffer → Type 0
Done call r = IsReturned call r.0 × IsBuffer r.1

abbrev pub AllDone : List Call → List Returned × ByteBuffer → Type 0
AllDone calls r = AllReturned calls r.0 × IsBuffer r.1

quietly-Done :
    (call : Call) (x : Option ByteBuffer)
    → IsReturned call Returned.nothing
    → Yields IsBuffer x
    → Yields (Done call) (quietly x)
quietly-Done call x silent h = Yields-bind IsBuffer (Done call) x _ h (λ b is. (silent, is))

run_call-IsBuffer :
    (host : Host) (call : Call) (b : ByteBuffer)
    → IsTyped call b
    → IsBuffer b
    → Yields (Done call) (run_call host call b)
unfolding run_call put set_rpos set_wpos
run_call-IsBuffer host (Call.integer n v) b h is =
    quietly-Done (Call.integer n v) (append host n v b) tt (append-IsBuffer host n v b is)
run_call-IsBuffer host (Call.bytes src) b h is =
    quietly-Done (Call.bytes src) (append_bytes src b) tt (append_bytes-IsBuffer src b h is)
run_call-IsBuffer host (Call.text src) b h is =
    quietly-Done (Call.text src) (append_string host src b) tt
      (append_string-IsBuffer host src b h is)
run_call-IsBuffer host (Call.buffer other) b h is =
    quietly-Done (Call.buffer other) (append_buffer other b) tt
      (append_buffer-IsBuffer other b h is)
run_call-IsBuffer host (Call.integer_at pos n v) b h is =
    quietly-Done (Call.integer_at pos n v) (put host pos n v b) tt
      (put_bytes-IsBuffer pos _ b (integer-AllBytes host n v) is)
run_call-IsBuffer host (Call.bytes_at pos src) b h is =
    quietly-Done (Call.bytes_at pos src) (put_bytes pos src b) tt
      (put_bytes-IsBuffer pos src b h is)
run_call-IsBuffer host (Call.resized n) b h is = (tt, resize-IsBuffer n b is)
run_call-IsBuffer host Call.cleared b h is =
    (tt, record { bytes = tt; rpos_inside = omega arith; wpos_inside = omega arith })
run_call-IsBuffer host (Call.rpos_to n) b h is =
    (tt, record { bytes = is.bytes; rpos_inside = h; wpos_inside = is.wpos_inside })
run_call-IsBuffer host (Call.wpos_to n) b h is =
    (tt, record { bytes = is.bytes; rpos_inside = is.rpos_inside; wpos_inside = h })
run_call-IsBuffer host (Call.get n) b h is =
    Yields-bind (Number n) (Done (Call.get n)) (read host n b) _ (read-IsBuffer host n b is)
      (λ r k. k)
run_call-IsBuffer host (Call.get_at pos n) b h is =
    Yields-bind _ (Done (Call.get_at pos n)) (read_at host pos n b) _
      (read_at-below host pos n b is.bytes) (λ v k. (k.0, is))
run_call-IsBuffer host (Call.get_bytes len) b h is =
    Yields-bind Text (Done (Call.get_bytes len)) (read_bytes len b) _ (read_bytes-IsBuffer len b is)
      (λ r k. k)
run_call-IsBuffer host Call.get_text b h is =
    Yields-bind Text (Done Call.get_text) (read_string host b) _ (read_string-IsBuffer host b is)
      (λ r k. k)

-- From a buffer of bytes whose positions are inside, any run of the calls that `Call` lists, as far as
-- no ASSERT ends it, with arguments of their types and the setters given positions inside, leads to
-- such a buffer, and every integer of `n` bytes that was read is below 256 ^ n and every text and
-- block made of bytes.
pub run_calls-IsBuffer :
    (host : Host) (calls : List Call) (b : ByteBuffer)
    → AllTyped host calls b
    → IsBuffer b
    → Yields (AllDone calls) (run_calls host calls b)
unfolding run_calls
run_calls-IsBuffer host [] b h is = (tt, is)
run_calls-IsBuffer host (call ∷ calls) b h is =
    later (run_call host call b) h.1 (run_call-IsBuffer host call b h.0 is)
      (λ r t k. run_calls-IsBuffer host calls r.1 t k)
  where
    later :
        (m : Option (Returned × ByteBuffer))
        → Yields (λ (r : Returned × ByteBuffer). AllTyped host calls r.1) m
        → Yields (Done call) m
        → ((r : Returned × ByteBuffer)
            → AllTyped host calls r.1
            → IsBuffer r.1
            → Yields (AllDone calls) (run_calls host calls r.1))
        → Yields
            (AllDone (call ∷ calls))
            (m >>= λ r. run_calls host calls r.1 >>= λ rs. some (r.0 ∷ rs.0, rs.1))
    later none t k ih = tt
    later (some r) t k ih =
        Yields-bind (AllDone calls) (AllDone (call ∷ calls)) (run_calls host calls r.1) _
          (ih r t k.1) (λ rs m. ((k.0, m.0), m.1))
