-- ===== src/Tests/Codec.antt =====
-- Byte order, packets, texts and the header cipher on concrete bytes.
use morfeusz.Base.{
  ℕ, ◌≡◌, refl, ◌+◌, min, true, List, [], ◌∷◌, ◌++◌, some, arith, length, drop, replicate, le_bytes,
  AllBytes,
}
use morfeusz.Endian.{Host, endian_convert, store}
use morfeusz.ByteBuffer.{ByteBuffer, size, append, append_bytes, write_at, resize_to, read_string}
use morfeusz.ByteBuffer.Append.{filled}
use morfeusz.ByteBuffer.Text.{until_zero, read_string_lem}
use morfeusz.Packet.{new_server_pkt}
use morfeusz.Packet.Header.{opcode_bytes, size_bytes, new_server_pkt_lem}
use morfeusz.TbcCrypto.{TbcCrypto, encrypt_loop}
use morfeusz.TbcCrypto.Inverse.{encrypt_all, decrypt_all, AreHeaders, decrypt_all-encrypt_all}

-- 0x0102 behind one byte, on a little-endian machine.
abbrev one_byte : ByteBuffer
one_byte = filled (7 ∷ []) 0

abbrev three_bytes : ByteBuffer
three_bytes = filled (7 ∷ 2 ∷ 1 ∷ []) 0

append_three : append Host.little 2 0x0102 one_byte ≡ some three_bytes
unfolding append append_bytes store endian_convert le_bytes write_at resize_to
append_three = refl

abbrev two_texts : ByteBuffer
two_texts = filled (65 ∷ 66 ∷ 0 ∷ 67 ∷ []) 0

read_string_example :
    read_string Host.little two_texts
    ≡ some (
      until_zero (drop two_texts.rpos two_texts.storage),
      record two_texts {
        rpos =
            min
              (size two_texts)
              (two_texts.rpos + length (until_zero (drop two_texts.rpos two_texts.storage)) + 1);
      },
    )
read_string_example = read_string_lem Host.little two_texts (omega arith)

new_server_pkt_example :
    new_server_pkt Host.big 0x1EC 10
    ≡ some (filled (size_bytes Host.big 10 ++ opcode_bytes Host.big 0x1EC) 0)
new_server_pkt_example = new_server_pkt_lem Host.big 0x1EC 10

abbrev keyed : TbcCrypto
keyed = record {
  is_initialised = true;
  key = replicate 20 0x5A;
  send_i = 18;
  send_j = 3;
  recv_i = 0;
  recv_j = 0;
}

abbrev two_headers : List (List ℕ)
two_headers = (0 ∷ 12 ∷ 0xEC ∷ 1 ∷ []) ∷ (0 ∷ 4 ∷ 0xEE ∷ 1 ∷ 255 ∷ []) ∷ []

key_bytes : AllBytes (replicate 20 0x5A)
key_bytes = ground arith

headers_fit : AreHeaders two_headers
headers_fit = ground arith

decrypt_all-encrypt_all_example :
    (outs : List (List ℕ)) × (c' : TbcCrypto) × (encrypt_all two_headers keyed ≡ some (outs, c'))
    × (decrypt_all keyed.key outs 18 3 ≡ some (two_headers, c'.send_i, c'.send_j))
decrypt_all-encrypt_all_example =
    decrypt_all-encrypt_all two_headers keyed refl key_bytes (omega arith) headers_fit

abbrev plain_header : List ℕ
plain_header = 0 ∷ 4 ∷ 0xDC ∷ 1 ∷ 0 ∷ 0 ∷ []

abbrev sent_header : List ℕ
sent_header = 90 ∷ 184 ∷ 62 ∷ 153 ∷ 243 ∷ 77 ∷ []

sent : encrypt_loop keyed.key 6 plain_header 0 0 ≡ some (sent_header, 6, 77)
unfolding encrypt_loop
sent = refl

header_bytes : AllBytes plain_header
header_bytes = ground arith
