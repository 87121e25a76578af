-- ===== src/ProxyService/Limit.antt =====
-- proxyd/Proxy_Service.cpp and proxyd/Proxy_Socket.cpp: the limit of connections.
use native.Mathlib.Nat.{div-lt_iff_lt-mul}
use morfeusz.Base.{ℕ, Bool, ◌+◌, ◌-◌, ◌/◌, ◌%◌, ◌^◌, ◌<◌, ◌≡◌, refl, true, false, some, arith, ◌==◌}
use morfeusz.Endian.{Host}
use morfeusz.ProxySocket.{ProxySocket}
use morfeusz.ProxyService.{ProxyService, Opened, update_connections, open_socket, close_socket}

below-div : (a b : ℕ) → a < b → a / b ≡ 0
below-div a b h =
    let less = (div-lt_iff_lt-mul {k = b} {x = a} {y = 1} (omega arith)).1 (omega arith) in
    omega (arith, less)

-- A proxy with as many clients as its limit refuses the next, and changes nothing; but when the
-- acceptor closes the refused socket, the count drops below the limit and the load to 0.
pub open_socket-close_socket :
    (host : Host) (registered : Bool) (seed : ℕ) (c : ProxySocket) (s : ProxyService)
    → 0 < s.connection_limit
    → s.connection_limit < 2 ^ 16
    → s.current_connections ≡ s.connection_limit
    → s.load ≡ 1
    → (after : ProxyService) × (open_socket host registered seed c s ≡ some (Opened.refused, c, s))
      × (close_socket s ≡ some after)
      × (after.current_connections ≡ s.connection_limit - 1)
      × (after.load ≡ 0)
unfolding open_socket close_socket update_connections
open_socket-close_socket host registered seed c s positive small full loaded =
    let limited : (s.connection_limit == 0) ≡ false = ground arith in
    let one : (s.load == 1) ≡ true = ground arith in
    let count : (s.current_connections + (2 ^ 32 - 1)) % 2 ^ 32 ≡ s.connection_limit - 1 =
      omega (arith, full) in
    let after = record s { current_connections = s.connection_limit - 1; load = 0 } in
    (
      after,
      rw one refl,
      rw (limited, count, below-div (s.connection_limit - 1) s.connection_limit (omega arith)) refl,
      refl,
      refl,
    )
