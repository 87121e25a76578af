-- ===== src/RealmSocket/Dispatch/Machine.antt =====
-- realmd/Realm_Socket.cpp: the connection's state machine as a relation.
use morfeusz.Base.{ℕ, ◌≡◌, List, ◌∷◌, some}
use morfeusz.Srp.{Proof, expected_proof}
use morfeusz.RealmSocket.{ConnectionState, Socket, Env}
use ConnectionState.{
  status_connected, status_need_proof, status_authed, status_need_rproof, status_closing,
}
use morfeusz.RealmSocket.Handlers.{proof_packet, login_of, reconnect_hash, field}
use morfeusz.RealmSocket.Dispatch.{Event, raw_buf}
use Event.{input, session_key}

-- The state that an event may leave behind, with what it takes: a client is AUTHED by the proof
-- that the server expects of the logon, or by the hash that it expects of the reconnect.
pub data Move {L : Type 0} (env : Env L) (c : Socket) : Event → ConnectionState → Type 0 where
  stays : (e : Event) → Move env c e c.state
  ends : (e : Event) → Move env c e status_closing
  challenged :
      (rest : List ℕ)
      → c.state ≡ status_connected
      → Move env c (input (some (0x00 ∷ rest))) status_need_proof
  proved :
      (rest : List ℕ) (proof : Proof)
      → c.state ≡ status_need_proof
      → expected_proof env.openssl env.stack
          (login_of env c)
          (proof_packet env (raw_buf env (0x01 ∷ rest)))
        ≡ some proof
      → field (raw_buf env (0x01 ∷ rest)) 33 20 ≡ proof.M
      → Move env c (input (some (0x01 ∷ rest))) status_authed
  rechallenged :
      (rest : List ℕ)
      → c.state ≡ status_connected
      → Move env c (input (some (0x02 ∷ rest))) status_need_rproof
  reproved :
      (rest : List ℕ)
      → c.state ≡ status_need_rproof
      → reconnect_hash env (raw_buf env (0x03 ∷ rest)) c
        ≡ some (field (raw_buf env (0x03 ∷ rest)) 17 20)
      → Move env c (input (some (0x03 ∷ rest))) status_authed
  resumed : (text : List ℕ) → Move env c (session_key 0 text) status_need_rproof

-- An event that carries, to a socket that waits for it, the proof that the server expects of the
-- logon or the hash that it expects of the reconnect.
pub data Proves {L : Type 0} (env : Env L) (c : Socket) : Event → Type 0 where
  by_proof :
      (rest : List ℕ) (proof : Proof)
      → c.state ≡ status_need_proof
      → expected_proof env.openssl env.stack
          (login_of env c)
          (proof_packet env (raw_buf env (0x01 ∷ rest)))
        ≡ some proof
      → field (raw_buf env (0x01 ∷ rest)) 33 20 ≡ proof.M
      → Proves env c (input (some (0x01 ∷ rest)))
  by_hash :
      (rest : List ℕ)
      → c.state ≡ status_need_rproof
      → reconnect_hash env (raw_buf env (0x03 ∷ rest)) c
        ≡ some (field (raw_buf env (0x03 ∷ rest)) 17 20)
      → Proves env c (input (some (0x03 ∷ rest)))

-- A move to AUTHED from another state has such an event.
pub Move-Proves :
    {L : Type 0} (env : Env L) (c : Socket) (e : Event) (s : ConnectionState)
    → Move env c e s
    → s ≡ status_authed
    → (c.state ≡ status_authed → ⊥)
    → Proves env c e
Move-Proves env c e s (Move.stays _) q h = absurd (h q)
Move-Proves env c e s (Move.ends _) q h = absurd cc
Move-Proves env c e s (Move.challenged rest w) q h = absurd cc
Move-Proves env c e s (Move.proved rest proof w m p) q h = Proves.by_proof rest proof w m p
Move-Proves env c e s (Move.rechallenged rest w) q h = absurd cc
Move-Proves env c e s (Move.reproved rest w m) q h = Proves.by_hash rest w m
Move-Proves env c e s (Move.resumed text) q h = absurd cc
