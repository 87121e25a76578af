-- ===== src/RealmSocket/Dispatch/Moves.antt =====
-- realmd/Realm_Socket.cpp: the connection's state machine, and what it takes to be AUTHED.
use morfeusz.Base.{
  ℕ, true, not, ◌≡◌, refl, sym, ap, subst, inl, inr, List, [], ◌∷◌, Option, none, some, ◌==◌,
  ==_iff, Yields, u8, Yields-weaken, Yields-bind, Yields-if, Yields-result,
}
use morfeusz.RealmSocket.{ConnectionState, AccountState, Socket, Env, is_state, die}
use ConnectionState.{
  status_connected, status_need_proof, status_authed, status_need_rproof, status_closing,
}
use AccountState.{account_exists, account_notfound, account_banned}
use morfeusz.RealmSocket.Handlers.{handle_realm_list, get_char_amount, get_sessionkey}
use morfeusz.RealmSocket.Handlers.States.{
  IsActive, Moved, Ended, die-Ended, Ended-Moved, Ended-trans, account_checked-Moved,
  ip_ban_checked-Moved, get_char_amount-Moved,
}
use morfeusz.RealmSocket.Handlers.Commands.{
  MovedIf, IsJudged, IsHashed, handle_auth_logon_challenge-Moved, handle_auth_logon_proof-Moved,
  handle_auth_reconnect_challenge-Moved, handle_auth_reconnect_proof-Moved, handle_realm_list-Moved,
  get_sessionkey-Moved, get_sessionkey-Ended,
}
use morfeusz.RealmSocket.Output.{Output, handle_output}
use morfeusz.RealmSocket.Output.Active.{handle_output-Moved}
use morfeusz.RealmSocket.Dispatch.Machine.{Move}
use morfeusz.RealmSocket.Dispatch.{
  Event, AccountRow, Return, amounts, kept, dispatch, raw_buf, receive, handle_input,
  account_update, key_of, session_key_update, char_amounts_update, settle, step,
}
use Event.{input, close, close_write, output, ip_ban, account, session_key, char_amounts}
use Return.{disconnect}

module _ {L : Type 0} (env : Env L) where
  Allowed : Event → Socket → Socket → Type 0
  Allowed e c c' = Move env c e c'.state × (IsActive c → IsActive c')

  allow_Moved :
      (e : Event) (s : ConnectionState) (c c' : Socket)
      → Move env c e s
      → Moved s c c'
      → Allowed e c c'
  unfolding Allowed
  allow_Moved e s c c' m (q, h) = (subst (Move env c e) (sym q) m, h)

  allow_Ended : (e : Event) (c c' : Socket) → Ended c c' → Allowed e c c'
  allow_Ended e c c' (inl m) = allow_Moved e c.state c c' (Move.stays e) m
  allow_Ended e c c' (inr m) = allow_Moved e status_closing c c' (Move.ends e) m

  allow : (e : Event) (c : Socket) (m : Option Socket) → Yields (Ended c) m → Yields (Allowed e c) m
  allow e c none y = tt
  allow e c (some c') y = allow_Ended e c c' y

  Settled : Event → Socket → Return × Socket → Type 0
  Settled e c r = Allowed e c (settle env r)

  disconnected : (e : Event) (c : Socket) → Settled e c (disconnect, c)
  unfolding Settled settle
  disconnected e c = allow_Ended e c (die c) (die-Ended c)

  allow_kept :
      (E : Type 0) (s : ConnectionState) (e : Event) (c : Socket) (m : Option Socket)
      → (E → Move env c e s)
      → Yields (MovedIf env E s c) m
      → Yields (Settled e c) (kept env m)
  unfolding kept Settled settle
  allow_kept E s e c none f y = tt
  allow_kept E s e c (some c') f (inl y) = allow_Ended e c c' y
  allow_kept E s e c (some c') f (inr (x, y)) = allow_Moved e s c c' (f x) y

  kept-Ended :
      (e : Event) (c : Socket) (m : Option Socket)
      → Yields (Ended c) m
      → Yields (Settled e c) (kept env m)
  unfolding kept Settled settle
  kept-Ended e c none y = tt
  kept-Ended e c (some c') y = allow_Ended e c c' y

  dispatch-Settled :
      (cmd : ℕ) (rest : List ℕ) (c : Socket)
      → Yields
          (Settled (input (some (cmd ∷ rest))) c)
          (dispatch env cmd (raw_buf env (cmd ∷ rest)) c)
  unfolding dispatch
  dispatch-Settled cmd rest c =
      let P = Settled (input (some (cmd ∷ rest))) c in
      let raw = raw_buf env (cmd ∷ rest) in
      Yields-if P (cmd == 0x00) _ _
        (λ e.
          allow_kept (c.state ≡ status_connected) status_need_proof _ c _
            (λ x. at 0 e (Move.challenged rest x)) (handle_auth_logon_challenge-Moved env raw c))
        (λ _.
          Yields-if P (cmd == 0x01) _ _
            (λ e.
              allow_kept (IsJudged env raw c) status_authed _ c _ (λ x. at 1 e (proof_move e x))
                (handle_auth_logon_proof-Moved env raw c))
            (λ _.
              Yields-if P (cmd == 0x02) _ _
                (λ e.
                  allow_kept (c.state ≡ status_connected) status_need_rproof _ c _
                    (λ x. at 2 e (Move.rechallenged rest x))
                    (handle_auth_reconnect_challenge-Moved env raw c))
                (λ _.
                  Yields-if P (cmd == 0x03) _ _
                    (λ e.
                      allow_kept (IsHashed env raw c) status_authed _ c _
                        (λ x. at 3 e (hash_move e x)) (handle_auth_reconnect_proof-Moved env raw c))
                    (λ _.
                      Yields-if P (cmd == 0x10) _ _
                        (λ e.
                          kept-Ended _ c (handle_realm_list env c) (handle_realm_list-Moved env c))
                        (λ _. disconnected _ c)))))
    where
      at :
          (n : ℕ) {s : ConnectionState}
          → (cmd == n) ≡ true
          → Move env c (input (some (n ∷ rest))) s
          → Move env c (input (some (cmd ∷ rest))) s
      at n {s} e m =
          subst (λ k. Move env c (input (some (k ∷ rest))) s) (sym ((==_iff cmd n).0 e)) m

      raw_at : (n : ℕ) → (cmd == n) ≡ true → raw_buf env (cmd ∷ rest) ≡ raw_buf env (n ∷ rest)
      raw_at n e = ap (λ k. raw_buf env (k ∷ rest)) ((==_iff cmd n).0 e)

      proof_move :
          (cmd == 1) ≡ true
          → IsJudged env (raw_buf env (cmd ∷ rest)) c
          → Move env c (input (some (1 ∷ rest))) status_authed
      proof_move e x =
          let y = subst (λ r. IsJudged env r c) (raw_at 1 e) x in Move.proved rest y.0 y.1 y.2 y.3

      hash_move :
          (cmd == 3) ≡ true
          → IsHashed env (raw_buf env (cmd ∷ rest)) c
          → Move env c (input (some (3 ∷ rest))) status_authed
      hash_move e x =
          let y = subst (λ r. IsHashed env r c) (raw_at 3 e) x in Move.reproved rest y.0 y.1

  handle_input-Settled :
      (received : Option (List ℕ)) (c : Socket)
      → Yields (Settled (input received) c) (handle_input env received c)
  unfolding handle_input receive
  handle_input-Settled none c =
      Yields-if (Settled (input none) c) (is_state c.state status_closing) _ _
        (λ e. disconnected _ c) (λ e. disconnected _ c)
  handle_input-Settled (some []) c =
      Yields-if (Settled (input (some [])) c) (is_state c.state status_closing) _ _
        (λ e. disconnected _ c) (λ e. disconnected _ c)
  handle_input-Settled (some (cmd ∷ rest)) c =
      Yields-if (Settled (input (some (cmd ∷ rest))) c) (is_state c.state status_closing) _ _
        (λ e. disconnected _ c) (λ e. dispatch-Settled cmd rest c)

  account_update-Moved :
      (row : Option AccountRow) (c : Socket) → Yields (Moved c.state c) (account_update env row c)
  unfolding account_update
  account_update-Moved none c = account_checked-Moved env account_notfound c
  account_update-Moved (some row) c =
      Yields-if (Moved c.state c) (u8 row.column5 == 0) _ _
        (λ e. account_checked-Moved env account_exists _)
        (λ e. account_checked-Moved env account_banned c)

  char_amounts_update-Ended :
      (rows : List (ℕ × ℕ)) (c : Socket) → Yields (Ended c) (char_amounts_update env rows c)
  unfolding char_amounts_update
  char_amounts_update-Ended [] c =
      Yields-bind (Ended c) (Ended c) (get_char_amount env [] c) (get_char_amount env [])
        (get_char_amount-Moved env [] c)
        (λ c' y.
          Yields-weaken (Ended c') (Ended c) (get_char_amount env [] c') (λ d. Ended-trans c c' d y)
            (get_char_amount-Moved env [] c'))
  char_amounts_update-Ended (row ∷ rows) c = get_char_amount-Moved env (amounts (row ∷ rows) []) c

  session_key_update-Allowed :
      (rows : ℕ) (text : List ℕ) (c : Socket)
      → Yields (Allowed (session_key rows text) c) (session_key_update env rows text c)
  unfolding session_key_update
  session_key_update-Allowed rows text c =
      let P = Allowed (session_key rows text) c in
      Yields-if P (rows == 0) _ _
        (λ e.
          Yields-weaken (Moved status_need_rproof c) P
            (get_sessionkey env true (record c { k = key_of env text c.k }))
            (λ d. allow_Moved _ status_need_rproof c d (
              subst (λ n. Move env c (session_key n text) status_need_rproof)
                (sym ((==_iff rows 0).0 e)) (Move.resumed text)))
            (get_sessionkey-Moved env (record c { k = key_of env text c.k })))
        (λ e. allow _ c _ (get_sessionkey-Ended env c))

  step-Allowed : (e : Event) (c : Socket) → Yields (Allowed e c) (step env e c)
  unfolding step
  step-Allowed (input received) c =
      Yields-bind (Settled (input received) c) (Allowed (input received) c)
        (handle_input env received c) (λ r. some (settle env r)) (handle_input-Settled received c)
        (λ r y. unfold Settled in y)
  step-Allowed close c = allow_Ended close c (die c) (die-Ended c)
  step-Allowed close_write c = allow_Ended close_write c c (inl (refl, λ h. h))
  step-Allowed (output sent) c =
      Yields-bind (λ (r : List ℕ × (Output × Socket)). Moved c.state c r.1.1)
        (Allowed (output sent) c) (handle_output sent c) (λ r. some r.1.1)
        (handle_output-Moved sent c)
        (λ r m. allow_Moved (output sent) c.state c r.1.1 (Move.stays (output sent)) m)
  step-Allowed (ip_ban rows) c =
      allow (ip_ban rows) c _ (Ended-Moved c _ (ip_ban_checked-Moved env (not (rows == 0)) c))
  step-Allowed (account row) c =
      allow (account row) c _ (Ended-Moved c _ (account_update-Moved row c))
  step-Allowed (session_key rows text) c = session_key_update-Allowed rows text c
  step-Allowed (char_amounts rows) c =
      allow (char_amounts rows) c _ (char_amounts_update-Ended rows c)

  -- Whatever the event, the connection's state moves as `Move` allows: to AUTHED only by an answer
  -- that equals what the server computes for the logon or the reconnect.
  pub step-Move : (e : Event) (c c' : Socket) → step env e c ≡ some c' → Move env c e c'.state
  unfolding Allowed
  step-Move e c c' h = (Yields-result (Allowed e c) (step env e c) c' (step-Allowed e c) h).0

  -- Every event keeps this: while a packet is queued, out_active is set.
  pub step-IsActive :
      (e : Event) (c c' : Socket) → step env e c ≡ some c' → IsActive c → IsActive c'
  unfolding Allowed
  step-IsActive e c c' h = (Yields-result (Allowed e c) (step env e c) c' (step-Allowed e c) h).1
