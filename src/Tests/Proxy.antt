-- ===== src/Tests/Proxy.antt =====
-- A connection to the proxy that writes two packets.
use morfeusz.Base.{ℕ, ◌≡◌, refl, true, false, List, [], ◌∷◌, ◌++◌, map, some, arith, replicate}
use morfeusz.Endian.{Host}
use morfeusz.ByteBuffer.Append.{filled}
use morfeusz.TbcCrypto.{TbcCrypto}
use morfeusz.TbcCrypto.Inverse.{decrypt_all}
use morfeusz.RealmSocket.Output.Sending.{TakesAll}
use morfeusz.ProxySocket.{ProxySocket, Call, Output, handle_output}
use morfeusz.ProxySocket.Sending.{sized, ArePackets, concat, handle_output-sized}

abbrev pub keyed : TbcCrypto
keyed = record {
  is_initialised = true;
  key = replicate 20 0x5A;
  send_i = 18;
  send_j = 3;
  recv_i = 0;
  recv_j = 0;
}

abbrev waiting : ProxySocket
waiting = record {
  crypto = keyed;
  packet_queue = filled (0 ∷ 0 ∷ 0xDD ∷ 1 ∷ []) 0 ∷ filled (9 ∷ 9 ∷ 0xCD ∷ 1 ∷ []) 0 ∷ [];
  out_active = true;
  continue_send = false;
  calls = [];
}

packets : ArePackets waiting.packet_queue
unfolding ArePackets
packets = ground arith

whole_sends : TakesAll (λ i. some 4) 0 waiting.packet_queue
unfolding TakesAll
whole_sends = (refl, (refl, tt))

handle_output-sized_example :
    (outs : List (List ℕ)) × (crypto : TbcCrypto) × (handle_output Host.little (λ i. some 4) waiting
      ≡ some (
        concat outs,
        (
          Output.drained,
          record waiting {
            packet_queue = [];
            crypto = crypto;
            out_active = false;
            continue_send = false;
            calls = waiting.calls ++ Call.cancel_write ∷ [];
          },
        ),
      ))
    × (decrypt_all keyed.key outs 18 3
        ≡ some (
          map (λ b. sized Host.little b.storage) waiting.packet_queue,
          crypto.send_i,
          crypto.send_j,
        ))
handle_output-sized_example =
    handle_output-sized Host.little (λ i. some 4) waiting refl refl (ground arith) (omega arith)
      packets whole_sends
