-- ===== src/Tests/Buffers.antt =====
-- The packed form of a number, and sequences, in a buffer.
use morfeusz.Base.{
  Yields, Yields-bind, ◌≡◌, refl, ◌<◌, List, [], ◌∷◌, some, arith, length, le_bytes, le_value,
}
use morfeusz.Endian.{Host, store, load, endian_convert}
use morfeusz.ByteBuffer.{
  ByteBuffer, append, append_bytes, append_string, put, put_bytes, read, read_at, read_string,
  read_string_loop, set_rpos, write_at, resize_to, block, empty,
}
use morfeusz.ByteBuffer.Append.{filled, read_at-append}
use morfeusz.ByteBuffer.Typed.Runs.{
  Call, AllTyped, AllDone, run_call, run_calls, run_calls-IsBuffer,
}
use morfeusz.ByteBuffer.Containers.{write_sequence, read_sequence}
use morfeusz.ByteBuffer.Containers.RoundTrip.{read_sequence-write_sequence}

read_sequence-write_sequence_example :
    (b : ByteBuffer) × (write_sequence
        (append Host.big 2)
        Host.big
        (3 ∷ 500 ∷ [])
        (filled (7 ∷ []) 1)
      ≡ some b)
    × (read_sequence (read Host.big 2) Host.big b
        ≡ some (3 ∷ 500 ∷ [], record b { rpos = length b.storage }))
unfolding morfeusz.ByteBuffer.Containers.RoundTrip.sequence_bytes morfeusz.Base.le_bytes
read_sequence-write_sequence_example =
    read_sequence-write_sequence Host.big 2 (3 ∷ 500 ∷ []) (7 ∷ []) (omega arith)
      (omega arith, (omega arith, tt)) (omega arith)

abbrev calls : List Call
calls =
    Call.integer 2 0x12345
    ∷ Call.text (0x48 ∷ 0x69 ∷ [])
    ∷ Call.integer_at 0 1 7
    ∷ Call.rpos_to 0
    ∷ Call.get 2
    ∷ Call.get_text
    ∷ []

calls-AllTyped : AllTyped Host.little calls empty
unfolding run_call append append_bytes append_string put put_bytes read read_at read_string
    read_string_loop set_rpos write_at resize_to block store endian_convert load le_bytes le_value
calls-AllTyped = (tt, ((omega arith, (omega arith, tt)), (tt, (omega arith, (tt, (tt, tt))))))

run_calls-IsBuffer_example : Yields (AllDone calls) (run_calls Host.little calls empty)
run_calls-IsBuffer_example =
    run_calls-IsBuffer Host.little calls empty calls-AllTyped
      (record { bytes = tt; rpos_inside = omega arith; wpos_inside = omega arith })

-- A buffer whose first bytes are written over.
abbrev rewound : ByteBuffer
rewound = record { storage = 7 ∷ 8 ∷ 9 ∷ []; rpos = 0; wpos = 0 }

abbrev overwritten : ByteBuffer
overwritten = record { storage = 0xF4 ∷ 1 ∷ 9 ∷ []; rpos = 0; wpos = 2 }

overwrites : append Host.little 2 500 rewound ≡ some overwritten
unfolding append append_bytes write_at resize_to store endian_convert le_bytes
overwrites = refl

read_at-append_example :
    (read_at Host.little 0 2 overwritten ≡ some 500)
    × (overwritten.wpos ≡ 2)
    × (overwritten.rpos ≡ 0)
read_at-append_example =
    read_at-append Host.little 2 500 rewound overwritten (omega arith) (omega arith) overwrites
