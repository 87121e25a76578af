-- ===== src/RealmSocket/Codes.antt =====
-- The numbers of realmd/Realm_Socket.h's ConnectionState tell its states apart.
use morfeusz.Base.{ℕ, not, false, ◌≡◌, refl, sym, ap, ◌∙◌, ◌==◌, if◌then◌else◌, arith}
use morfeusz.RealmSocket.{ConnectionState, is_state, state_code}
use ConnectionState.{
  status_connected, status_need_proof, status_authed, status_need_rproof, status_closing,
}

code_state : ℕ → ConnectionState
code_state n =
    if n == 0
    then status_connected
    else if n == 1
    then status_need_proof
    else if n == 2
    then status_authed
    else if n == 3
    then status_need_rproof
    else status_closing

code_state-state_code : (s : ConnectionState) → code_state (state_code s) ≡ s
unfolding code_state
code_state-state_code status_connected = refl
code_state-state_code status_need_proof = refl
code_state-state_code status_authed = refl
code_state-state_code status_need_rproof = refl
code_state-state_code status_closing = refl

pub is_state_sound : (a b : ConnectionState) → not (is_state a b) ≡ false → a ≡ b
is_state_sound a b h =
    sym (code_state-state_code a)
    ∙ ap code_state (same (state_code a) (state_code b) h)
    ∙ code_state-state_code b
  where
    same : (m n : ℕ) → not (m == n) ≡ false → m ≡ n
    same m n h = ground arith
