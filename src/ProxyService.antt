-- ===== src/ProxyService.antt =====
-- proxyd/Proxy_Service.cpp, update_connections; proxyd/Proxy_Socket.cpp, open, close and handle_close;
-- proxyd/Proxyd_EC_Communicator.cpp, what is pushed and the push of a request. Starting, CORBA's own
-- calls, and reference counts are left out.
pub mod Limit
use morfeusz.Base.{
  ℕ, ◌+◌, ◌-◌, ◌/◌, ◌%◌, ◌^◌, Bool, true, false, List, [], ◌∷◌, ◌++◌, Option, none, some, ◌>>=◌,
  ◌==◌, if◌then◌else◌,
}
use morfeusz.Endian.{Host}
use morfeusz.ByteBuffer.{append}
use morfeusz.Packet.{new_server_pkt}
use morfeusz.ProxySocket.{ProxySocket, send}
use morfeusz.RealmService.{Announcement}

-- What the service asks of the event channel and of the reactor's timers, in order.
pub data Effect : Type 0 where
  announced : Announcement ℕ → Effect
  shut_down : List ℕ → Effect
  timer_cancelled : ℕ → Effect
  timer_scheduled : Effect

-- The load is a float of a quotient of integers, and here the quotient; `none` as a timer is -1.
pub record ProxyService : Type 0 where
  pub load : ℕ
  pub current_connections : ℕ
  pub connection_limit : ℕ
  pub realm_id : ℕ
  pub bind_addr : List ℕ
  pub announce_timer_id : Option ℕ
  pub effects : List Effect

-- `none` is a division by zero.
unfoldable pub update_connections : Bool → ProxyService → Option ProxyService
update_connections up s =
    let count =
      (if up then s.current_connections + 1 else s.current_connections + (2 ^ 32 - 1)) % 2 ^ 32 in
    if s.connection_limit == 0
    then none
    else some (record s { current_connections = count; load = count / s.connection_limit })

-- 0 and -1 to the acceptor.
pub data Opened : Type 0 where
  accepted refused : Opened

-- `registered` is whether register_handler succeeds.
unfoldable pub open_socket :
    Host → Bool → ℕ → ProxySocket → ProxyService → Option (Opened × ProxySocket × ProxyService)
unfolding update_connections
open_socket host registered seed c s = if s.load == 1 then some (Opened.refused, c, s) else (do
  s ← update_connections true s
  (if registered
      then (do
        pkt ← new_server_pkt host 0x1EC 4
        pkt ← append host 4 seed pkt
        some (Opened.accepted, send pkt c, s))
      else some (Opened.refused, c, s)))

unfoldable pub close_socket : ProxyService → Option ProxyService
unfolding update_connections
close_socket s = update_connections false s

handle_close : Bool → ProxyService → Option ProxyService
unfolding close_socket
handle_close write_mask s = if write_mask then some s else close_socket s

announce : ProxyService → ProxyService
announce s = record s {
  effects =
      s.effects
      ++ Effect.announced (record { realm_id = s.realm_id; address = s.bind_addr; load = s.load })
        ∷ [];
}

shutdowned : ProxyService → ProxyService
shutdowned s = record s { effects = s.effects ++ Effect.shut_down s.bind_addr ∷ [] }

-- Proxy_Announce_Timer::handle_timeout
handle_timeout : ProxyService → ProxyService
unfolding announce
handle_timeout s = announce s

cancel_timer : ProxyService → ProxyService
cancel_timer s = elim s.announce_timer_id [
  | none ↦ s
  | some timer ↦ record s { effects = s.effects ++ Effect.timer_cancelled timer ∷ [] }
]

-- `timer` is what schedule_timer gives.
restart_timer : Option ℕ → ProxyService → ProxyService
restart_timer timer s = elim s.announce_timer_id [
  | none ↦ s
  | some old ↦ record s {
    announce_timer_id = timer;
    effects = s.effects ++ Effect.timer_scheduled ∷ [];
  }
]

-- push of a Proxy_Request.
push_request : ℕ → Option ℕ → ProxyService → ProxyService
unfolding cancel_timer announce restart_timer
push_request realm_id timer s =
    if realm_id == s.realm_id then restart_timer timer (announce (cancel_timer s)) else s
