-- ===== src/Packet/Header.antt =====
-- The header of a ServerPkt, and how it survives the payload (common/ByteBuffer.h).
use morfeusz.Base.{
  ℕ, ◌+◌, ◌<◌, ◌≡◌, refl, ap, ◌∙◌, List, ◌∷◌, ◌++◌, reverse, reverse-reverse, some, u16, arith,
  length, length-reverse, length-append, le_bytes, length-le_bytes, AllBytes-le_bytes,
  AllBytes-reverse, AllBytes,
}
use morfeusz.Endian.{Host, little, big, endian_convert-store, le_bytes-load}
use morfeusz.ByteBuffer.Append.{filled, append_front, append_gap}
use morfeusz.Packet.{converted, converted_reverse, set_opcode, set_size, new_server_pkt}

-- The bytes that the two fields of the header get.
pub opcode_bytes : Host → ℕ → List ℕ
opcode_bytes little op = le_bytes 2 op
opcode_bytes big op = reverse (le_bytes 2 op)

pub size_bytes : Host → ℕ → List ℕ
size_bytes little size = reverse (le_bytes 2 (u16 (u16 size + 2)))
size_bytes big size = le_bytes 2 (u16 (u16 size + 2))

le_bytes-converted :
    (host : Host) (op : ℕ) → le_bytes 2 (converted host 2 op) ≡ opcode_bytes host op
unfolding converted opcode_bytes
le_bytes-converted little op =
    rw ((endian_convert-store little 2 op).0)
      (le_bytes-load (le_bytes 2 op) 2 (AllBytes-le_bytes 2 op) (length-le_bytes 2 op)).0
le_bytes-converted big op =
    rw ((endian_convert-store big 2 op).0)
      (le_bytes-load (le_bytes 2 op) 2 (AllBytes-le_bytes 2 op) (length-le_bytes 2 op)).1

le_bytes-converted_reverse :
    (host : Host) (size : ℕ)
    → le_bytes 2 (converted_reverse host 2 (u16 (u16 size + 2))) ≡ size_bytes host size
unfolding converted_reverse size_bytes
le_bytes-converted_reverse little size =
    let m = le_bytes 2 (u16 (u16 size + 2)) in
    rw ((endian_convert-store little 2 (u16 (u16 size + 2))).1)
      (le_bytes-load (reverse m) 2 (AllBytes-reverse m (AllBytes-le_bytes 2 _))
        (length-reverse m ∙ length-le_bytes 2 _)).0
le_bytes-converted_reverse big size =
    let m = le_bytes 2 (u16 (u16 size + 2)) in
    rw ((endian_convert-store big 2 (u16 (u16 size + 2))).1) (
      (le_bytes-load (reverse m) 2 (AllBytes-reverse m (AllBytes-le_bytes 2 _))
        (length-reverse m ∙ length-le_bytes 2 _)).1
      ∙ reverse-reverse m)

-- SetSize overwrites the first two bytes of a packet and nothing else.
pub set_size_lem :
    (host : Host) (size x y r w : ℕ) (rest : List ℕ)
    → length rest < 9999998
    → set_size host size (record { storage = x ∷ y ∷ rest; rpos = r; wpos = w })
      ≡ some (record { storage = size_bytes host size ++ rest; rpos = r; wpos = w })
unfolding set_size
set_size_lem host size x y r w rest h =
    rw
      (
        append_front host (converted_reverse host 2 (u16 (u16 size + 2))) x y rest r h,
        le_bytes-converted_reverse host size,
      )
      refl

pub length-opcode_bytes : (host : Host) (op : ℕ) → length (opcode_bytes host op) ≡ 2
unfolding opcode_bytes
length-opcode_bytes little op = length-le_bytes 2 op
length-opcode_bytes big op = length-reverse (le_bytes 2 op) ∙ length-le_bytes 2 op

pub length-size_bytes : (host : Host) (size : ℕ) → length (size_bytes host size) ≡ 2
unfolding size_bytes
length-size_bytes little size = length-reverse (le_bytes 2 _) ∙ length-le_bytes 2 _
length-size_bytes big size = length-le_bytes 2 _

-- The constructor leaves the four bytes of the header, ready for the payload behind them: on a
-- little-endian machine the size is big-endian and the opcode little-endian, on a big-endian
-- machine it is the other way round.
pub new_server_pkt_lem :
    (host : Host) (op siz : ℕ)
    → new_server_pkt host op siz ≡ some (filled (size_bytes host siz ++ opcode_bytes host op) 0)
unfolding new_server_pkt set_opcode
new_server_pkt_lem host op siz =
    rw (append_gap host (converted host 2 op), le_bytes-converted host op)
      (set_size_lem host siz 0 0 0 4 (opcode_bytes host op)
          (omega (arith, length-opcode_bytes host op))
        ∙ ap
            (λ (n : ℕ). some (record {
              storage = size_bytes host siz ++ opcode_bytes host op;
              rpos = 0;
              wpos = n;
            }))
            (omega (
              arith,
              length-append (size_bytes host siz) (opcode_bytes host op),
              length-size_bytes host siz,
              length-opcode_bytes host op,
            )))

pub AllBytes-size_bytes : (host : Host) (size : ℕ) → AllBytes (size_bytes host size)
unfolding size_bytes
AllBytes-size_bytes little size =
    AllBytes-reverse (le_bytes 2 (u16 (u16 size + 2))) (AllBytes-le_bytes 2 (u16 (u16 size + 2)))
AllBytes-size_bytes big size = AllBytes-le_bytes 2 (u16 (u16 size + 2))
