-- ===== src/RealmSocket.antt =====
-- realmd/Realm_Socket.h and .cpp: the state of a client's connection to the realm server, what
-- it sends and how it ends. `calls` records, in order, what the socket asks of the database and
-- of the reactor; reference counts, locks and logging are left out.
pub mod Codes
pub mod Packets
pub mod Handlers
pub mod Dispatch
pub mod Output
use morfeusz.Base.{ℕ, Bool, true, List, [], ◌∷◌, ◌++◌, ◌==◌, if◌then◌else◌}
use morfeusz.Endian.{Host}
use morfeusz.ByteBuffer.{ByteBuffer}
use morfeusz.Srp.{OpenSsl}
use morfeusz.RealmService.{Service}

pub record Account : Type 0 where
  pub sha_pass : List ℕ
  pub id : ℕ
  pub locked : Bool
  pub last_ip : List ℕ
  pub gmlevel : ℕ
  pub failed_logins : ℕ

pub data AccountState : Type 0 where
  account_exists account_notfound account_banned : AccountState

pub data ConnectionState : Type 0 where
  status_connected status_need_proof status_authed status_need_rproof status_closing :
      ConnectionState

-- The enumerators' numbers, and `==` on them.
abbrev pub state_code : ConnectionState → ℕ
state_code ConnectionState.status_connected = 0
state_code ConnectionState.status_need_proof = 1
state_code ConnectionState.status_authed = 2
state_code ConnectionState.status_need_rproof = 3
state_code ConnectionState.status_closing = 4

abbrev pub is_state : ConnectionState → ConnectionState → Bool
is_state a b = state_code a == state_code b

-- What a socket calls: the queries of RealmDB, and the reactor's and the peer's operations.
pub data Call : Type 0 where
  check_ip_ban get_account get_char_amount get_sessionkey : Call
  update_account : List ℕ → List ℕ → List ℕ → Call
  increment_failed_logins ban_account : ℕ → Call
  ban_ip : List ℕ → Call
  fix_sv : List ℕ → Call
  set_sv : List ℕ → List ℕ → List ℕ → Call
  register_write cancel_write remove_handler peer_close release : Call

pub record Socket : Type 0 where
  pub state : ConnectionState
  pub client_build : ℕ
  pub login : List ℕ
  pub ip : List ℕ
  pub acct : Account
  pub realm_char_amount : List (ℕ × ℕ)
  pub out_active : Bool
  pub packet_queue : List ByteBuffer
  pub s : ℕ
  pub v : ℕ
  pub b : ℕ
  pub B : ℕ
  pub k : ℕ
  pub reconnect_proof : ℕ
  pub calls : List Call

-- An int of the configuration: n, or -(n+1).
pub data ℤ : Type 0 where
  pos negsuc : ℕ → ℤ

-- What a handler reads besides the socket: the machine, OpenSSL, the configuration, the realm
-- service, the memory that `new` and the stack hand out, and the numbers that BN_rand draws.
pub record Env (L : Type 0) : Type 0 where
  pub host : Host
  pub openssl : OpenSsl
  pub wrong_pass_ban : Bool
  pub wrong_pass_amnt : ℤ
  pub wrong_pass_ban_type : List ℕ
  pub service : Service L
  pub lt_load : L → L → Bool
  pub float32 : ℕ → ℕ
  pub heap : ℕ → List ℕ
  pub stack : List ℕ
  pub rand_b : ℕ
  pub rand_unk : ℕ
  pub rand_proof : ℕ

unfoldable pub call : Call → Socket → Socket
call x c = record c { calls = c.calls ++ x ∷ [] }

-- send(ByteBuffer*)
unfoldable pub send : ByteBuffer → Socket → Socket
unfolding call
send pkt c =
    let queued = record c { packet_queue = c.packet_queue ++ pkt ∷ [] } in
    if c.out_active then queued else record (call register_write queued) { out_active = true }

-- die(): the handler, which removes itself from the reactor, and the connection end.
pub die : Socket → Socket
unfolding call
die c = call release (call peer_close (call remove_handler (record c { state = status_closing })))
