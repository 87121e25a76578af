-- ===== src/RealmSocket/Dispatch.antt =====
-- realmd/Realm_Socket.cpp, handle_input, handle_output and handle_close, and the observers of
-- realmd/Realm_Database.h that hand a query's result to the socket: one step for every event.
pub mod Machine
pub mod Moves
pub mod Runs
use morfeusz.Base.{
  ℕ, ◌-◌, Bool, true, false, not, List, [], ◌∷◌, ◌++◌, Option, none, some, ◌>>=◌, ltb, ◌==◌,
  if◌then◌else◌, get_or, replicate, length, u8, u32,
}
use morfeusz.RealmService.Map.{map_set}
use morfeusz.RealmSocket.{Account, AccountState, ConnectionState, Socket, Env, is_state, die}
use AccountState.{account_exists, account_notfound, account_banned}
use ConnectionState.{status_closing}
use morfeusz.RealmSocket.Output.{handle_output}
use morfeusz.RealmSocket.Handlers.{
  ip_ban_checked, account_checked, get_sessionkey, get_char_amount, handle_auth_logon_challenge,
  handle_auth_logon_proof, handle_auth_reconnect_challenge, handle_auth_reconnect_proof,
  handle_realm_list,
}

-- The row of REALMD_DB_GET_ACCT, as the observer reads its columns.
pub record AccountRow : Type 0 where
  pub column1 : List ℕ
  pub column2 : ℕ
  pub column3 : Bool
  pub column4 : List ℕ
  pub column5 : ℕ
  pub column6 : ℕ

-- What a handler returns to the reactor: 0 or -1.
pub data Return : Type 0 where
  keep disconnect : Return

-- The reactor's calls and the results of the queries. `output` has what every send takes. recv gives `none` for -1, and [] at the
-- end of the stream; session_key has the number of rows and what getString(1) gives.
pub data Event : Type 0 where
  input : Option (List ℕ) → Event
  close : Event
  close_write : Event
  output : (ℕ → Option ℕ) → Event
  ip_ban : ℕ → Event
  account : Option AccountRow → Event
  session_key : ℕ → List ℕ → Event
  char_amounts : List (ℕ × ℕ) → Event

-- amnt[res->getUint8(1)] = res->getUint8(2), for every row.
pub amounts : List (ℕ × ℕ) → List (ℕ × ℕ) → List (ℕ × ℕ)
amounts [] m = m
amounts ((realm, n) ∷ rows) m = amounts rows (map_set (u8 realm) (u8 n) m)

module _ {L : Type 0} (env : Env L) where
  unfoldable pub kept : Option Socket → Option (Return × Socket)
  kept r = r >>= λ c. some (keep, c)

  unfoldable pub dispatch : ℕ → List ℕ → Socket → Option (Return × Socket)
  dispatch cmd raw c =
      if cmd == 0x00
      then kept (handle_auth_logon_challenge env raw c)
      else if cmd == 0x01
      then kept (handle_auth_logon_proof env raw c)
      else if cmd == 0x02
      then kept (handle_auth_reconnect_challenge env raw c)
      else if cmd == 0x03
      then kept (handle_auth_reconnect_proof env raw c)
      else if cmd == 0x10
      then kept (handle_realm_list env c)
      else some (disconnect, c)

  -- raw_buf is cleared, and its start is what recv got.
  abbrev pub raw_buf : List ℕ → List ℕ
  raw_buf received = received ++ replicate (4096 - length received) 0

  -- The part of handle_input behind its first test.
  unfoldable pub receive : Option (List ℕ) → Socket → Option (Return × Socket)
  receive none c = some (disconnect, c)
  receive (some []) c = some (disconnect, c)
  receive (some (cmd ∷ rest)) c = dispatch cmd (raw_buf (cmd ∷ rest)) c

  unfoldable pub handle_input : Option (List ℕ) → Socket → Option (Return × Socket)
  handle_input received c =
      if is_state c.state status_closing then some (disconnect, c) else receive received c

  -- checkAcctObsv: the ban is read from column 5, which is the level as well.
  pub account_update : Option AccountRow → Socket → Option Socket
  account_update none c = account_checked env account_notfound c
  account_update (some row) c =
      if u8 row.column5 == 0
      then account_checked env account_exists (record c {
        acct = record {
          sha_pass = row.column1;
          id = u32 row.column2;
          locked = row.column3;
          last_ip = row.column4;
          gmlevel = u8 row.column5;
          failed_logins = u8 row.column6;
        };
      })
      else account_checked env account_banned c

  -- BN_hex2bn into k, which stays as it was where the text is not read.
  pub key_of : List ℕ → ℕ → ℕ
  key_of text k = if env.openssl.is_hex text then env.openssl.hex2bn text else k

  -- getSessionKeyObsv: rows mean no key.
  pub session_key_update : ℕ → List ℕ → Socket → Option Socket
  session_key_update rows text c =
      if rows == 0
      then get_sessionkey env true (record c { k = key_of text c.k })
      else get_sessionkey env false c

  -- getCharAmntObsv: no row calls back twice.
  pub char_amounts_update : List (ℕ × ℕ) → Socket → Option Socket
  char_amounts_update [] c = get_char_amount env [] c >>= get_char_amount env []
  char_amounts_update (row ∷ rows) c = get_char_amount env (amounts (row ∷ rows) []) c

  -- A refused input ends in handle_close with the read mask, as the reactor documents. A refused
  -- output ends in it with the write mask, which does nothing, so `output` is what it leaves.
  unfoldable pub settle : Return × Socket → Socket
  settle (keep, c) = c
  settle (disconnect, c) = die c

  unfoldable pub step : Event → Socket → Option Socket
  step (input received) c = handle_input received c >>= λ r. some (settle r)
  step close c = some (die c)
  step close_write c = some c
  step (output sent) c = handle_output sent c >>= λ r. some r.1.1
  step (ip_ban rows) c = ip_ban_checked env (not (rows == 0)) c
  step (account row) c = account_update row c
  step (session_key rows text) c = session_key_update rows text c
  step (char_amounts rows) c = char_amounts_update rows c
