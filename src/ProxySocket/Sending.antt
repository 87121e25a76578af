-- ===== src/ProxySocket/Sending.antt =====
-- proxyd/Proxy_Socket.cpp, handle_output: what a client that undoes the cipher gets to read.
use morfeusz.Base.{
  ℕ, ◌+◌, ◌-◌, ◌%◌, ◌^◌, ◌≤◌, ◌<◌, ◌≡◌, refl, ◌∙◌, true, false, List, [], ◌∷◌, ◌++◌, map, Option,
  some, arith, length, drop, take_all, le→ltb, length-append, AllBytes, AllBytes-drop,
  AllBytes-append,
}
use morfeusz.Endian.{Host}
use morfeusz.ByteBuffer.{ByteBuffer, size}
use morfeusz.Packet.{set_size}
use morfeusz.Packet.Header.{size_bytes, set_size_lem, length-size_bytes, AllBytes-size_bytes}
use morfeusz.TbcCrypto.{TbcCrypto, encrypt, decrypt_loop, crypted_send_len}
use morfeusz.TbcCrypto.Inverse.{decrypt_all, decrypt_loop-encrypt_loop}
use morfeusz.RealmSocket.Output.Sending.{TakesAll}
use morfeusz.ProxySocket.{ProxySocket, Call, seal, write, Output, finish, handle_output}

-- The bytes of a packet with its size field set.
pub sized : Host → List ℕ → List ℕ
sized host bytes = size_bytes host ((length bytes + 2 ^ 64 - 4) % 2 ^ 64) ++ drop 2 bytes

unfoldable pub ArePackets : List ByteBuffer → Type 0
ArePackets [] = Unit
ArePackets (b ∷ queue) = (4 ≤ size b) × (size b < 10000000) × AllBytes b.storage × ArePackets queue

pub concat : List (List ℕ) → List ℕ
concat [] = []
concat (xs ∷ xss) = xs ++ concat xss

set_size_any :
    (host : Host) (n : ℕ) (bytes : List ℕ) (r w : ℕ)
    → 4 ≤ length bytes
    → length bytes < 10000000
    → set_size host n (record { storage = bytes; rpos = r; wpos = w })
      ≡ some (record { storage = size_bytes host n ++ drop 2 bytes; rpos = r; wpos = w })
set_size_any host n [] r w h k = absurd (omega arith)
set_size_any host n (x ∷ []) r w h k = absurd (omega arith)
set_size_any host n (x ∷ y ∷ rest) r w h k = set_size_lem host n x y r w rest (omega arith)

length-sized :
    (host : Host) (bytes : List ℕ) → 4 ≤ length bytes → length (sized host bytes) ≡ length bytes
unfolding sized
length-sized host [] h = absurd (omega arith)
length-sized host (x ∷ []) h = absurd (omega arith)
length-sized host (x ∷ y ∷ rest) h =
    let n = (length (x ∷ y ∷ rest) + 2 ^ 64 - 4) % 2 ^ 64 in
    omega (arith, length-append (size_bytes host n) rest, length-size_bytes host n)

-- A packet goes out with its size set and its four bytes of header encrypted, as the peer with
-- the same key and position undoes it.
seal_lem :
    (host : Host) (b : ByteBuffer) (c : TbcCrypto)
    → c.is_initialised ≡ true
    → AllBytes c.key
    → c.send_j < 256
    → 4 ≤ size b
    → size b < 10000000
    → AllBytes b.storage
    → (out : List ℕ) × (i : ℕ) × (j : ℕ) × (seal host false b c
        ≡ some (record b { storage = out }, record c { send_i = i; send_j = j }))
      × (decrypt_loop c.key 4 out c.send_i c.send_j ≡ some (sized host b.storage, i, j))
      × (j < 256)
      × (length out ≡ size b)
unfolding seal encrypt sized
seal_lem host b c init hk hj long short hb =
    let n = (size b + 2 ^ 64 - 4) % 2 ^ 64 in
    let bytes = size_bytes host n ++ drop 2 b.storage in
    let wide = length-sized host b.storage long in
    let (out, i, j, enc, dec, below, len) =
      decrypt_loop-encrypt_loop c.key crypted_send_len bytes c.send_i c.send_j hk
        (AllBytes-append (size_bytes host n) (drop 2 b.storage) (AllBytes-size_bytes host n)
          (AllBytes-drop 2 b.storage hb))
        hj (omega (arith, wide)) in
    (
      out,
      i,
      j,
      rw (set_size_any host n b.storage b.rpos b.wpos long short, init, enc) refl,
      dec,
      below,
      len ∙ wide,
    )

write_lem :
    (host : Host) (sent : ℕ → Option ℕ) (i : ℕ) (c : TbcCrypto) (queue : List ByteBuffer)
    → c.is_initialised ≡ true
    → AllBytes c.key
    → c.send_j < 256
    → ArePackets queue
    → TakesAll sent i queue
    → (outs : List (List ℕ)) × (c' : TbcCrypto) × (write host sent i false c queue
        ≡ some (record {
          wire = concat outs;
          queue = [];
          failed = false;
          crypto = c';
          continue_send = false;
        }))
      × (decrypt_all c.key outs c.send_i c.send_j
          ≡ some (map (λ b. sized host b.storage) queue, c'.send_i, c'.send_j))
unfolding ArePackets TakesAll write concat decrypt_all
write_lem host sent i c [] init hk hj ps whole = ([], c, refl, refl)
write_lem host sent i c (b ∷ queue) init hk hj (long, short, hb, ps) (all, whole) =
    let (out, si, sj, sealed, dec, below, len) = seal_lem host b c init hk hj long short hb in
    let c1 : TbcCrypto = record c { send_i = si; send_j = sj } in
    let (outs, c', written, decs) = write_lem host sent (i + 1) c1 queue init hk below ps whole in
    (
      out ∷ outs,
      c',
      rw
          (
            write,
            sealed,
            all,
            le→ltb (size b) (length out) (omega arith),
            written,
            take_all (size b) out (omega arith),
          )
          refl,
      rw (dec, decs) refl,
    )

-- Once the key is set, if the peer takes every packet whole then a client with the same key and
-- position that undoes the cipher over each packet's header reads the queue in order, every
-- packet with its size field set; the queue is empty and the socket rests.
pub handle_output-sized :
    (host : Host) (sent : ℕ → Option ℕ) (c : ProxySocket)
    → c.continue_send ≡ false
    → c.crypto.is_initialised ≡ true
    → AllBytes c.crypto.key
    → c.crypto.send_j < 256
    → ArePackets c.packet_queue
    → TakesAll sent 0 c.packet_queue
    → (outs : List (List ℕ)) × (crypto : TbcCrypto) × (handle_output host sent c
        ≡ some (
          concat outs,
          (
            Output.drained,
            record c {
              packet_queue = [];
              crypto = crypto;
              out_active = false;
              continue_send = false;
              calls = c.calls ++ Call.cancel_write ∷ [];
            },
          ),
        ))
      × (decrypt_all c.crypto.key outs c.crypto.send_i c.crypto.send_j
          ≡ some (map (λ b. sized host b.storage) c.packet_queue, crypto.send_i, crypto.send_j))
unfolding handle_output finish
handle_output-sized host sent c fresh init hk hj ps whole =
    let (outs, crypto, written, decs) =
      write_lem host sent 0 c.crypto c.packet_queue init hk hj ps whole in
    (outs, crypto, ground arith, decs)
