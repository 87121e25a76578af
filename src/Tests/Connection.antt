-- ===== src/Tests/Connection.antt =====
-- A connection that reconnects, and the sending of what it has queued.
use morfeusz.Base.{
  ◌<◌, ◌++◌, length, arith, ℕ, ◌≡◌, refl, true, false, [], ◌∷◌, some, List, ltb, replicate,
  bytes_eq, le_value, le_bytes,
}
use morfeusz.Endian.{Host, store, load, endian_convert}
use morfeusz.ByteBuffer.{append, append_bytes, write_at, resize_to}
use morfeusz.ByteBuffer.Append.{filled}
use morfeusz.Srp.{OpenSsl, fill}
use morfeusz.RealmSocket.{Account, ConnectionState, Call, Socket, ℤ, Env, call, send}
use morfeusz.RealmService.{Realm, get_proxy_for_realm, select, proxies_for_realm, lowest_load}
use morfeusz.RealmService.Map.{find}
use morfeusz.RealmSocket.Packets.{
  build_reconnect_ok, list_size, build_realm_packet, build_expansion_realm_packet,
}
use morfeusz.RealmSocket.Packets.Expansion.{
  Agree, expansion_fields, expansion_bytes, expansion_list_body, build_expansion_realm_packet_lem,
}
use morfeusz.ByteBuffer.Fields.{bytes, all_bytes}
use morfeusz.RealmSocket.Packets.Layout.{
  realm_fields, realms_bytes, realm_list_body, build_realm_packet_lem,
}
use morfeusz.RealmSocket.Handlers.{
  c_string, handle_auth_reconnect_challenge, handle_auth_reconnect_proof, judge_hash,
  reconnect_hash, authed,
}
use morfeusz.RealmSocket.Handlers.States.{IsActive}
use morfeusz.RealmSocket.Dispatch.{Event, step, settle, handle_input, receive, dispatch, kept}
use morfeusz.RealmSocket.Dispatch.Machine.{Move}
use morfeusz.RealmSocket.Dispatch.Moves.{step-Move}
use morfeusz.RealmSocket.Dispatch.Runs.{new_socket, Run, Authenticated, Run-authed, Run-IsActive}
use morfeusz.RealmSocket.Output.{Output, handle_output}
use morfeusz.RealmSocket.Output.Sending.{contents, TakesAll, handle_output-contents}
use morfeusz.Tests.Numbers.{openssl}

abbrev env : Env ℕ
env = record {
  host = Host.little;
  openssl = openssl;
  wrong_pass_ban = true;
  wrong_pass_amnt = ℤ.pos 3;
  wrong_pass_ban_type = [];
  service = record { realm_map = []; proxies = []; requests = [] };
  lt_load = ltb;
  float32 = λ x. x;
  heap = λ n. replicate n 0;
  stack = replicate 32 0;
  rand_b = 1;
  rand_unk = 1;
  rand_proof = 1;
}

abbrev acct : Account
acct = record {
  sha_pass = [];
  id = 0;
  locked = false;
  last_ip = [];
  gmlevel = 0;
  failed_logins = 0;
}

abbrev challenged : Socket
challenged = record {
  state = ConnectionState.status_need_rproof;
  client_build = 0;
  login = [];
  ip = 10 ∷ [];
  acct = acct;
  realm_char_amount = [];
  out_active = false;
  packet_queue = [];
  s = 5;
  v = 0;
  b = 0;
  B = 0;
  k = 3;
  reconnect_proof = 0;
  calls = Call.get_sessionkey ∷ [];
}

abbrev reconnected : Socket
reconnected = record challenged {
  state = ConnectionState.status_authed;
  out_active = true;
  packet_queue = filled (3 ∷ 0 ∷ 0 ∷ 0 ∷ []) 0 ∷ [];
  calls = Call.get_sessionkey ∷ Call.register_write ∷ [];
}

abbrev challenge_input : Event
challenge_input = Event.input (some (2 ∷ []))

abbrev proof_input : Event
proof_input = Event.input (some (3 ∷ []))

challenge_step : step env challenge_input (new_socket (10 ∷ []) 5 acct 0) ≡ some challenged
unfolding new_socket step settle handle_input receive dispatch kept handle_auth_reconnect_challenge
    c_string call load le_value
challenge_step = refl

proof_step : step env proof_input challenged ≡ some reconnected
unfolding step settle handle_input receive dispatch kept handle_auth_reconnect_proof reconnect_hash
    judge_hash fill bytes_eq authed build_reconnect_ok append append_bytes write_at resize_to store
    endian_convert le_bytes send call
proof_step = refl

step-Move_example : Move env challenged proof_input reconnected.state
step-Move_example = step-Move env proof_input challenged reconnected proof_step

run : Run ℕ (new_socket (10 ∷ []) 5 acct 0) reconnected
run = Run.next env proof_input (Run.next env challenge_input Run.start challenge_step) proof_step

Run-authed_example : Authenticated reconnected run
Run-authed_example = Run-authed (10 ∷ []) 5 acct 0 reconnected run refl

Run-IsActive_example : IsActive reconnected
Run-IsActive_example = Run-IsActive (10 ∷ []) 5 acct 0 reconnected run

whole_sends : TakesAll (λ i. some 4) 0 reconnected.packet_queue
unfolding TakesAll
whole_sends = (refl, tt)

handle_output-contents_example :
    handle_output (λ i. some 4) reconnected
    ≡ some (
      contents reconnected.packet_queue,
      (
        Output.drained,
        record (call Call.cancel_write reconnected) { packet_queue = []; out_active = false },
      ),
    )
handle_output-contents_example = handle_output-contents (λ i. some 4) reconnected refl whole_sends

abbrev realm : Realm
realm = record {
  name = 65 ∷ 66 ∷ [];
  icon = 1;
  color = 0;
  timezone = 1;
  allowed_security_level = 0;
  population = 0;
  build = 5875;
}

abbrev listing : Env ℕ
listing = record env {
  service = record {
    realm_map = (1, realm) ∷ (2, record realm { build = 8606 }) ∷ (3, realm) ∷ [];
    proxies = (1, record { ip = 49 ∷ 50 ∷ []; load = 4 }) ∷ [];
    requests = [];
  };
}

abbrev classic : Socket
classic = record reconnected { client_build = 5875; realm_char_amount = (1, 2) ∷ [] }

body_fits : length (realm_list_body listing classic) < 9999990
unfolding realm_list_body list_size realms_bytes realm_fields all_bytes bytes le_bytes
    get_proxy_for_realm select proxies_for_realm lowest_load find bytes_eq
body_fits = omega arith

build_realm_packet_example :
    build_realm_packet listing classic
    ≡ some (
        filled
          (le_bytes 1 0x10
            ++ le_bytes 2 (length (realm_list_body listing classic))
            ++ realm_list_body listing classic)
          0)
build_realm_packet_example = build_realm_packet_lem listing classic body_fits

-- A client of an expansion, whose amounts do not have its realm.
abbrev expanded : Socket
expanded = record reconnected { client_build = 8606; realm_char_amount = (1, 2) ∷ [] }

expansion_fits : length (expansion_list_body listing expanded) < 9999990
unfolding expansion_list_body list_size expansion_bytes expansion_fields all_bytes bytes le_bytes
    get_proxy_for_realm select proxies_for_realm lowest_load find bytes_eq
expansion_fits = omega arith

build_expansion_realm_packet_lem_example :
    (after : List (ℕ × ℕ)) × Agree after ((1, 2) ∷ [])
    × (build_expansion_realm_packet listing expanded
        ≡ some (
          filled
              (le_bytes 1 0x10
                ++ le_bytes 2 (length (expansion_list_body listing expanded))
                ++ expansion_list_body listing expanded)
              0,
          record expanded { realm_char_amount = after },
        ))
build_expansion_realm_packet_lem_example =
    build_expansion_realm_packet_lem listing expanded expansion_fits

-- An OpenSSL for which every number and every hash is the same.
abbrev constant : OpenSsl
constant = record openssl { mod_exp = λ a p m. 5; bn2bin = λ x. 5 ∷ []; sha1 = λ b. replicate 20 7 }

-- One wrong password is let pass.
abbrev strict : Env ℕ
strict = record env { openssl = constant; wrong_pass_amnt = ℤ.pos 1 }

abbrev awaiting : Socket
awaiting = record challenged { state = ConnectionState.status_need_proof }

abbrev guess : List ℕ
guess = 1 ∷ replicate 100 0
