-- ===== src/RealmSocket/Output/Sending.antt =====
-- realmd/Realm_Socket.cpp, handle_output: whole sends drain the queue in order; a part of a packet
-- taken leaves bytes that begin one too early.
use morfeusz.Base.{
  ℕ, ◌+◌, ◌-◌, ◌≤◌, ◌<◌, ◌≡◌, refl, subst, true, false, List, [], ◌∷◌, ◌++◌, Option, some, arith,
  length, drop, take_all, le→ltb, le→leb, length-take, length-append, append-nil, length-drop,
  take-append_length,
}
use morfeusz.ByteBuffer.{ByteBuffer, size, block, read_bytes, write_at, resize, resize_to}
use morfeusz.RealmSocket.{Call, Socket, call}
use morfeusz.RealmSocket.Output.{keep_rest, flush, Output, finish, handle_output}

-- The queued bytes in order.
pub contents : List ByteBuffer → List ℕ
contents [] = []
contents (buffer ∷ queue) = buffer.storage ++ contents queue

-- The calls from the i-th on take whole packets.
unfoldable pub TakesAll : (ℕ → Option ℕ) → ℕ → List ByteBuffer → Type 0
TakesAll sent i [] = Unit
TakesAll sent i (buffer ∷ queue) = (sent i ≡ some (size buffer)) × TakesAll sent (i + 1) queue

flush_all :
    (sent : ℕ → Option ℕ) (i : ℕ) (queue : List ByteBuffer)
    → TakesAll sent i queue
    → flush sent i queue ≡ some (record { wire = contents queue; queue = []; failed = false })
unfolding TakesAll contents flush
flush_all sent i [] h = refl
flush_all sent i (buffer ∷ queue) (e, h) =
    rw
      (
        flush,
        e,
        le→ltb (size buffer) (size buffer) (omega arith),
        flush_all sent (i + 1) queue h,
        take_all (size buffer) buffer.storage (omega arith),
      )
      refl

-- If the peer takes every packet whole, it gets the queue's bytes in order, and the socket is
-- left with an empty queue and no wish to write.
pub handle_output-contents :
    (sent : ℕ → Option ℕ) (c : Socket)
    → c.out_active ≡ true
    → TakesAll sent 0 c.packet_queue
    → handle_output sent c
      ≡ some (
        contents c.packet_queue,
        (
          Output.drained,
          record (call Call.cancel_write c) { packet_queue = []; out_active = false },
        ),
      )
unfolding handle_output finish call
handle_output-contents sent c active h = ground (arith, flush_all sent 0 c.packet_queue h)

length-block : (xs : List ℕ) (pos cnt : ℕ) → pos + cnt ≤ length xs → length (block xs pos cnt) ≡ cnt
unfolding block
length-block xs pos cnt h = omega (arith, length-take cnt (drop pos xs), length-drop pos xs)

resize_to-write_at :
    (src xs : List ℕ) → length src ≤ length xs → resize_to (length src) (write_at xs 0 src) ≡ src
unfolding resize_to write_at
resize_to-write_at src xs h =
    let rest = drop (0 + length src) xs in
    let none_missing : length src - length (src ++ rest) ≡ 0 =
      omega (arith, length-append src rest) in
    rw (take-append_length src rest, none_missing) (append-nil src)

-- A packet of which the peer took n bytes, not all, is left as the bytes from n - 1 on, without
-- the last one: the last byte sent goes out again, and the packet's last byte never does.
pub keep_rest_lem :
    (n : ℕ) (buffer : ByteBuffer)
    → 0 < n
    → n < size buffer
    → keep_rest n buffer
      ≡ some (record {
        storage = block buffer.storage (n - 1) (size buffer - n);
        rpos = 0;
        wpos = size buffer - n;
      })
unfolding keep_rest read_bytes resize
keep_rest_lem n buffer pos short =
    let bytes = block buffer.storage (n - 1) (size buffer - n) in
    let l = length-block buffer.storage (n - 1) (size buffer - n) (omega arith) in
    let r : resize_to (size buffer - n) (write_at buffer.storage 0 bytes) ≡ bytes =
      subst (λ k. resize_to k (write_at buffer.storage 0 bytes) ≡ bytes) l
        (resize_to-write_at bytes buffer.storage (omega arith)) in
    rw (le→leb (n - 1 + (size buffer - n)) (size buffer) (omega arith), r, l) refl
