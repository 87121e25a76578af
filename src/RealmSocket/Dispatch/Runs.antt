-- ===== src/RealmSocket/Dispatch/Runs.antt =====
-- realmd/Realm_Socket.cpp: the events of one connection in a row, from the constructor and open()
-- on. What a handler reads besides the socket may differ at every event.
use morfeusz.Base.{ℕ, true, false, not, ◌≡◌, refl, ap, inl, inr, List, [], some, arith, Bool-cases}
use morfeusz.RealmSocket.{Account, ConnectionState, Socket, Env, is_state}
use ConnectionState.{status_connected, status_authed}
use morfeusz.RealmSocket.Handlers.States.{IsActive}
use morfeusz.RealmSocket.Codes.{is_state_sound}
use morfeusz.RealmSocket.Dispatch.{Event, step}
use morfeusz.RealmSocket.Dispatch.Machine.{Proves, Move-Proves}
use morfeusz.RealmSocket.Dispatch.Moves.{step-IsActive, step-Move}

-- Realm_Socket() and open(): nothing is known of the account, and k is 3.
unfoldable pub new_socket : List ℕ → ℕ → Account → ℕ → Socket
new_socket ip s acct build = record {
  state = status_connected;
  client_build = build;
  login = [];
  ip = ip;
  acct = acct;
  realm_char_amount = [];
  out_active = false;
  packet_queue = [];
  s = s;
  v = 0;
  b = 0;
  B = 0;
  k = 3;
  reconnect_proof = 0;
  calls = [];
}

-- The sockets that the events can lead to.
pub data Run (L : Type 0) (c : Socket) : Socket → Type 0 where
  start : Run L c c
  next :
      {before after : Socket} (env : Env L) (e : Event)
      → Run L c before
      → step env e before ≡ some after
      → Run L c after

-- A run that is authenticated: at its last event, which met a socket that was not AUTHED and carried
-- what the server expected of it, or at an earlier one, with the socket AUTHED since.
pub data Authenticated {L : Type 0} {c : Socket} : (c' : Socket) → Run L c c' → Type 0 where
  now :
      {before after : Socket} (env : Env L) (e : Event) (r : Run L c before)
      (q : step env e before ≡ some after)
      → not (is_state before.state status_authed) ≡ true
      → Proves env before e
      → Authenticated after (Run.next env e r q)
  since :
      {before after : Socket} (env : Env L) (e : Event) (r : Run L c before)
      (q : step env e before ≡ some after)
      → before.state ≡ status_authed
      → Authenticated before r
      → Authenticated after (Run.next env e r q)

module _ {L : Type 0} where
  authenticated :
      (c c' : Socket)
      → not (is_state c.state status_authed) ≡ true
      → (r : Run L c c') → c'.state ≡ status_authed
      → Authenticated c' r
  authenticated c c' h Run.start e =
      absurd (grind (arith, ap (λ s. not (is_state s status_authed)) e, h))
  authenticated c c' h (Run.next {before} env event r q) e =
      elim (Bool-cases (not (is_state before.state status_authed))) [
        | inl n ↦
            (let move = step-Move env event before c' q in
              Authenticated.now env event r q n (
                Move-Proves env before event c'.state move e
                  (λ k. absurd (grind (arith, ap (λ s. not (is_state s status_authed)) k, n)))))
        | inr n ↦
            (let b = is_state_sound before.state status_authed n in
              Authenticated.since env event r q b (authenticated c before h r b))
      ]

  -- However a connection runs, if it is AUTHED at its end then it has been since an event of the run
  -- that carried the proof that the server expected at that time, or the reconnect's hash, to a
  -- socket that waited for it and was not AUTHED before.
  pub Run-authed :
      (ip : List ℕ) (s : ℕ) (acct : Account) (build : ℕ) (c : Socket)
      (r : Run L (new_socket ip s acct build) c)
      → c.state ≡ status_authed
      → Authenticated c r
  unfolding new_socket
  Run-authed ip s acct build c r e = authenticated _ c refl r e

  -- In every run, with handle_output among its events, out_active is set while a packet is queued, so
  -- that a call of handle_output does not skip the queue.
  pub Run-IsActive :
      (ip : List ℕ) (s : ℕ) (acct : Account) (build : ℕ) (c : Socket)
      → Run L (new_socket ip s acct build) c
      → IsActive c
  unfolding new_socket
  Run-IsActive ip s acct build c Run.start = inl refl
  Run-IsActive ip s acct build c (Run.next {before} env event r q) =
      step-IsActive env event before c q (Run-IsActive ip s acct build before r)
