-- ===== src/RealmSocket/Handlers/Commands.antt =====
-- realmd/Realm_Socket.cpp: the state that each command of the client leaves behind.
use morfeusz.Base.{
  ℕ, true, false, not, ◌≡◌, refl, ap, ◌∙◌, ◌⊎◌, inl, inr, List, Option, none, some, Option-cases,
  ◌==◌, ltb, length, bytes_eq, bytes_eq_sound, drop, take, Yields, Yields-then, Yields-if,
}
use morfeusz.Endian.{load}
use morfeusz.Srp.{Proof, ProofPacket, expected_proof, server_proof, fill}
use morfeusz.RealmSocket.{ConnectionState, Call, Socket, Env, is_state, call, send}
use ConnectionState.{status_connected, status_need_proof, status_authed, status_need_rproof}
use morfeusz.RealmSocket.Packets.{
  is_expansion_build, is_supported_client_build, build_logon_proof_packet,
  build_expansion_logon_proof_packet, build_reconnect_challenge, build_reconnect_ok,
}
use morfeusz.RealmSocket.Handlers.{
  c_string, handle_auth_logon_challenge, proof_packet, login_of, accept_proof, judge_proof,
  handle_auth_logon_proof, handle_realm_list, reconnect_hash, authed, judge_hash,
  handle_auth_reconnect_challenge, handle_auth_reconnect_proof, get_sessionkey, field,
  handle_failed_login,
}
use morfeusz.RealmSocket.Codes.{is_state_sound}
use morfeusz.RealmSocket.Handlers.States.{
  Moved, Ended, send-Moved, die-Ended, Ended-Moved, answer-Moved, handle_failed_login-Moved,
  authed-Moved, send_realm_list-Moved,
}

module _ {L : Type 0} (env : Env L) where
  -- The connection stays as it is or ends, or it moves to `s`, which takes the evidence E.
  abbrev pub MovedIf : Type 0 → ConnectionState → Socket → Socket → Type 0
  MovedIf E s c c' = Ended c c' ⊎ (E × Moved s c c')

  ended :
      (E : Type 0) (s : ConnectionState) (c : Socket) (m : Option Socket)
      → Yields (Ended c) m
      → Yields (MovedIf E s c) m
  ended E s c none y = tt
  ended E s c (some c') y = inl y

  moved :
      (E : Type 0) (s : ConnectionState) (c : Socket) (m : Option Socket)
      → E
      → Yields (Moved s c) m
      → Yields (MovedIf E s c) m
  moved E s c none x y = tt
  moved E s c (some c') x y = inr (x, y)

  weaken :
      (E F : Type 0) (s : ConnectionState) (c : Socket) (m : Option Socket)
      → (E → F)
      → Yields (MovedIf E s c) m
      → Yields (MovedIf F s c) m
  weaken E F s c none f y = tt
  weaken E F s c (some c') f (inl y) = inl y
  weaken E F s c (some c') f (inr (x, y)) = inr (f x, y)

  pub handle_auth_logon_challenge-Moved :
      (raw : List ℕ) (c : Socket)
      → Yields
          (MovedIf (c.state ≡ status_connected) status_need_proof c)
          (handle_auth_logon_challenge env raw c)
  unfolding handle_auth_logon_challenge call
  handle_auth_logon_challenge-Moved raw c =
      let E = c.state ≡ status_connected in
      Yields-if (MovedIf E status_need_proof c) (not (is_state c.state status_connected)) _ _
        (λ e. inl (die-Ended c))
        (λ e.
          Yields-if (MovedIf E status_need_proof c)
            (is_supported_client_build (load env.host (field raw 11 2))) _ _
            (λ u. inr (is_state_sound c.state status_connected e, (refl, λ h. h)))
            (λ u. ended E status_need_proof c _ (Ended-Moved c _ (answer-Moved env 9 _))))

  accept_proof-Moved :
      (prf : ProofPacket) (p : Proof) (c : Socket)
      → Yields (MovedIf Unit status_authed c) (accept_proof env prf p c)
  unfolding accept_proof call
  accept_proof-Moved prf p c =
      let hamk = server_proof env.openssl prf.A p in
      Yields-if (MovedIf Unit status_authed c) (c.client_build == 5875) _ _
        (λ e. elim (Option-cases (build_logon_proof_packet env.host hamk)) [
          | inl e ↦ rw e tt
          | inr (pkt, e) ↦ rw e (moved Unit status_authed c _ tt (authed-Moved env _ pkt))
        ])
        (λ e.
          Yields-if (MovedIf Unit status_authed c) (is_expansion_build c.client_build) _ _
            (λ e. elim (Option-cases (build_expansion_logon_proof_packet env.host hamk)) [
              | inl e ↦ rw e tt
              | inr (pkt, e) ↦ rw e (moved Unit status_authed c _ tt (authed-Moved env _ pkt))
            ])
            (λ e. inl (die-Ended (call (Call.update_account c.login c.ip p.K) c))))

  -- The packet's proof is the one that was expected.
  abbrev pub IsJudged : List ℕ → Socket → Type 0
  IsJudged raw c =
      (p : Proof) × (c.state ≡ status_need_proof)
      × (expected_proof env.openssl env.stack (login_of env c) (proof_packet env raw) ≡ some p)
      × (field raw 33 20 ≡ p.M)

  judge_proof-Moved :
      (prf : ProofPacket) (c : Socket) (p : Proof)
      → Yields (MovedIf (prf.M1 ≡ p.M) status_authed c) (judge_proof env prf c p)
  unfolding judge_proof
  judge_proof-Moved prf c p =
      let E = prf.M1 ≡ p.M in
      Yields-if (MovedIf E status_authed c) (bytes_eq prf.M1 p.M) _ _
        (λ e.
          weaken Unit E status_authed c (accept_proof env prf p c)
            (λ u. bytes_eq_sound prf.M1 p.M e) (accept_proof-Moved prf p c))
        (λ e.
          ended E status_authed c (handle_failed_login env c)
            (Ended-Moved c (handle_failed_login env c) (handle_failed_login-Moved env c)))

  pub handle_auth_logon_proof-Moved :
      (raw : List ℕ) (c : Socket)
      → Yields (MovedIf (IsJudged raw c) status_authed c) (handle_auth_logon_proof env raw c)
  unfolding handle_auth_logon_proof
  handle_auth_logon_proof-Moved raw c =
      let prf = proof_packet env raw in
      Yields-if (MovedIf (IsJudged raw c) status_authed c)
        (not (is_state c.state status_need_proof)) _ _ (λ e. inl (die-Ended c))
        (λ e.
          Yields-then (MovedIf (IsJudged raw c) status_authed c)
            (expected_proof env.openssl env.stack (login_of env c) prf) (judge_proof env prf c)
            (λ p q.
              weaken (prf.M1 ≡ p.M) (IsJudged raw c) status_authed c (judge_proof env prf c p)
                (λ m. (p, is_state_sound c.state status_need_proof e, q, m))
                (judge_proof-Moved prf c p)))

  pub handle_auth_reconnect_challenge-Moved :
      (raw : List ℕ) (c : Socket)
      → Yields
          (MovedIf (c.state ≡ status_connected) status_need_rproof c)
          (handle_auth_reconnect_challenge env raw c)
  unfolding handle_auth_reconnect_challenge call
  handle_auth_reconnect_challenge-Moved raw c =
      Yields-if (MovedIf (c.state ≡ status_connected) status_need_rproof c)
        (not (is_state c.state status_connected)) _ _ (λ e. inl (die-Ended c))
        (λ e. elim (Option-cases (c_string (drop 34 raw))) [
          | inl n ↦ rw n tt
          | inr (login, n) ↦ rw n (inr (is_state_sound c.state status_connected e, (refl, λ h. h)))
        ])

  abbrev pub IsHashed : List ℕ → Socket → Type 0
  IsHashed raw c =
      (c.state ≡ status_need_rproof) × (reconnect_hash env raw c ≡ some (field raw 17 20))

  judge_hash-Moved :
      (raw : List ℕ) (c : Socket) (hash : List ℕ)
      → Yields (MovedIf (hash ≡ field raw 17 20) status_authed c) (judge_hash env raw c hash)
  unfolding judge_hash
  judge_hash-Moved raw c hash =
      let E = hash ≡ field raw 17 20 in
      Yields-if (MovedIf E status_authed c) (bytes_eq hash (field raw 17 20)) _ _
        (λ e. elim (Option-cases (build_reconnect_ok env.host)) [
          | inl n ↦ rw n tt
          | inr (pkt, n) ↦ rw n (
              moved E status_authed c (authed env c pkt) (bytes_eq_sound hash (field raw 17 20) e)
                (authed-Moved env c pkt))
        ])
        (λ e. inl (die-Ended c))

  pub handle_auth_reconnect_proof-Moved :
      (raw : List ℕ) (c : Socket)
      → Yields (MovedIf (IsHashed raw c) status_authed c) (handle_auth_reconnect_proof env raw c)
  unfolding handle_auth_reconnect_proof
  handle_auth_reconnect_proof-Moved raw c =
      Yields-if (MovedIf (IsHashed raw c) status_authed c)
        (not (is_state c.state status_need_rproof)) _ _ (λ e. inl (die-Ended c))
        (λ e.
          Yields-then (MovedIf (IsHashed raw c) status_authed c) (reconnect_hash env raw c)
            (judge_hash env raw c)
            (λ hash q.
              weaken (hash ≡ field raw 17 20) (IsHashed raw c) status_authed c
                (judge_hash env raw c hash)
                (λ m. (is_state_sound c.state status_need_rproof e, q ∙ ap some m))
                (judge_hash-Moved raw c hash)))

  pub handle_realm_list-Moved : (c : Socket) → Yields (Ended c) (handle_realm_list env c)
  unfolding handle_realm_list call
  handle_realm_list-Moved c =
      Yields-if (Ended c) (not (is_state c.state status_authed)) _ _ (λ e. die-Ended c)
        (λ e.
          Yields-if (Ended c) (ltb 0 (length c.realm_char_amount)) _ _
            (λ u. send_realm_list-Moved env c) (λ u. inl (refl, λ h. h)))

  pub get_sessionkey-Moved :
      (c : Socket) → Yields (Moved status_need_rproof c) (get_sessionkey env true c)
  unfolding get_sessionkey
  get_sessionkey-Moved c =
      elim (Option-cases (fill (env.heap 16) (env.openssl.bn2bin env.rand_proof))) [
        | inl n ↦ rw n tt
        | inr (rpr, n) ↦ rw n (
            Yields-then (Moved status_need_rproof c)
              (build_reconnect_challenge env.host (take 16 rpr))
              (λ pkt. some (record (send pkt (record c { reconnect_proof = env.rand_proof })) {
                state = status_need_rproof;
              }))
              (λ pkt e. (refl, (send-Moved pkt (record c { reconnect_proof = env.rand_proof })).1)))
      ]

  pub get_sessionkey-Ended : (c : Socket) → Yields (Ended c) (get_sessionkey env false c)
  unfolding get_sessionkey
  get_sessionkey-Ended c = die-Ended c
