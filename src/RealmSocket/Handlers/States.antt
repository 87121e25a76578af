-- ===== src/RealmSocket/Handlers/States.antt =====
-- realmd/Realm_Socket.cpp: how the operations move the connection's state, and what they do to
-- out_active, without which handle_output skips the queue.
use morfeusz.Base.{
  ℕ, Bool, true, false, not, ◌&&◌, bytes_eq, Option-cases, ◌≡◌, refl, ◌∙◌, ◌⊎◌, inl, inr, List, [],
  ◌∷◌, ◌++◌, Option, none, some, if◌then◌else◌, ◌==◌, Yields, Yields-bind, Yields-if,
}
use morfeusz.ByteBuffer.{ByteBuffer}
use morfeusz.Srp.{verifier}
use morfeusz.RealmSocket.{AccountState, ConnectionState, Call, Socket, Env, call, send, die}
use AccountState.{account_exists, account_notfound, account_banned}
use ConnectionState.{status_authed, status_closing}
use morfeusz.RealmSocket.Packets.{
  is_expansion_build, build_challenge_result, build_challenge_packet, list_expansion,
  build_realm_packet, build_expansion_realm_packet,
}
use morfeusz.RealmSocket.Handlers.{
  set_vs, answer, with_challenge, send_challenge, account_checked, ip_ban_checked,
  count_failed_login, handle_failed_login, authed, send_realm_list, get_char_amount,
}

-- Nothing is queued, or out_active is set.
abbrev pub IsActive : Socket → Type 0
IsActive c = (c.packet_queue ≡ []) ⊎ (c.out_active ≡ true)

abbrev pub Moved : ConnectionState → Socket → Socket → Type 0
Moved s c c' = (c'.state ≡ s) × (IsActive c → IsActive c')

pub send-Moved : (pkt : ByteBuffer) (c : Socket) → Moved c.state c (send pkt c)
unfolding send call
send-Moved pkt c = sent c.out_active refl
  where
    queued : Socket
    queued = record c { packet_queue = c.packet_queue ++ pkt ∷ [] }

    sent :
        (b : Bool)
        → c.out_active ≡ b
        → Moved c.state c
            (if b then queued else record (call Call.register_write queued) { out_active = true })
    sent true e = (refl, λ h. inr e)
    sent false e = (refl, λ h. inr refl)

Moved-trans : (s : ConnectionState) (a b c : Socket) → Moved a.state a b → Moved s b c → Moved s a c
Moved-trans s a b c (e, f) (e', f') = (e', λ h. f' (f h))

pub Moved-Steady : (a b c : Socket) → Moved a.state a b → Moved b.state b c → Moved a.state a c
Moved-Steady a b c (e, f) (e', f') = (e' ∙ e, λ h. f' (f h))

Moved-if :
    (s : ConnectionState) (c x y : Socket) (b : Bool)
    → Moved s c x
    → Moved s c y
    → Moved s c (if b then x else y)
Moved-if s c x y true hx hy = hx
Moved-if s c x y false hx hy = hy

pub after :
    (a b : Socket) (m : Option Socket)
    → Moved a.state a b
    → Yields (Moved b.state b) m
    → Yields (Moved a.state a) m
after a b none ab bm = tt
after a b (some c) ab bm = Moved-Steady a b c ab bm

-- The state stays, or the connection ends.
abbrev pub Ended : Socket → Socket → Type 0
Ended c c' = Moved c.state c c' ⊎ Moved status_closing c c'

pub die-Ended : (c : Socket) → Ended c (die c)
unfolding die call
die-Ended c = inr (refl, λ h. h)

pub Ended-Moved : (c : Socket) (m : Option Socket) → Yields (Moved c.state c) m → Yields (Ended c) m
Ended-Moved c none y = tt
Ended-Moved c (some c') y = inl y

pub Ended-trans : (a b c : Socket) → Ended a b → Ended b c → Ended a c
Ended-trans a b c (inl (e, f)) (inl (e', f')) = inl (e' ∙ e, λ h. f' (f h))
Ended-trans a b c (inl (e, f)) (inr (e', f')) = inr (e', λ h. f' (f h))
Ended-trans a b c (inr (e, f)) (inl (e', f')) = inr (e' ∙ e, λ h. f' (f h))
Ended-trans a b c (inr (e, f)) (inr (e', f')) = inr (e', λ h. f' (f h))

module _ {L : Type 0} (env : Env L) where
  pub answer-Moved : (r : ℕ) (c : Socket) → Yields (Moved c.state c) (answer env r c)
  unfolding answer
  answer-Moved r c = elim (Option-cases (build_challenge_result env.host r)) [
    | inl e ↦ rw e tt
    | inr (pkt, e) ↦ rw e (send-Moved pkt c)
  ]

  set_vs-Moved : (c : Socket) → Yields (Moved c.state c) (set_vs env c)
  unfolding set_vs call
  set_vs-Moved c = elim (Option-cases (verifier env.openssl c.s c.acct.sha_pass)) [
    | inl e ↦ rw e tt
    | inr (v, e) ↦ rw e (refl, λ h. h)
  ]

  send_challenge-Moved : (c : Socket) → Yields (Moved c.state c) (send_challenge env c)
  unfolding send_challenge with_challenge
  send_challenge-Moved c = elim (Option-cases (build_challenge_packet env (with_challenge env c))) [
    | inl e ↦ rw e tt
    | inr (buf, e) ↦ rw e (send-Moved buf (with_challenge env c))
  ]

  pub account_checked-Moved :
      (a : AccountState) (c : Socket) → Yields (Moved c.state c) (account_checked env a c)
  unfolding account_checked
  account_checked-Moved account_banned c = answer-Moved 3 c
  account_checked-Moved account_notfound c = answer-Moved 4 c
  account_checked-Moved account_exists c =
      Yields-if (Moved c.state c) (c.acct.locked && not (bytes_eq c.ip c.acct.last_ip)) _ _
        (λ e. answer-Moved 0x10 c)
        (λ e.
          Yields-bind (Moved c.state c) (Moved c.state c) (set_vs env c) (send_challenge env)
            (set_vs-Moved c)
            (λ c' m. after c c' (send_challenge env c') m (send_challenge-Moved c')))

  pub ip_ban_checked-Moved :
      (r : Bool) (c : Socket) → Yields (Moved c.state c) (ip_ban_checked env r c)
  unfolding ip_ban_checked call
  ip_ban_checked-Moved true c = account_checked-Moved account_banned c
  ip_ban_checked-Moved false c = (refl, λ h. h)

  count_failed_login-Moved : (c : Socket) → Moved c.state c (count_failed_login env c)
  unfolding count_failed_login call
  count_failed_login-Moved c =
      Moved-if c.state c _ _ _ (Moved-if c.state c _ _ _ (refl, λ h. h) (refl, λ h. h))
        (refl, λ h. h)

  pub handle_failed_login-Moved :
      (c : Socket) → Yields (Moved c.state c) (handle_failed_login env c)
  unfolding handle_failed_login
  handle_failed_login-Moved c =
      let c' = if env.wrong_pass_ban then count_failed_login env c else c in
      after c c' (account_checked env account_notfound c')
        (Moved-if c.state c _ _ env.wrong_pass_ban (count_failed_login-Moved c) (refl, λ h. h))
        (account_checked-Moved account_notfound c')

  pub authed-Moved :
      (c : Socket) (pkt : ByteBuffer) → Yields (Moved status_authed c) (authed env c pkt)
  unfolding authed
  authed-Moved c pkt = (refl, λ h. (send-Moved pkt c).1 h)

  set_vs_sent : (c : Socket) (pkt : ByteBuffer) → Yields (Moved c.state c) (set_vs env (send pkt c))
  set_vs_sent c pkt = after c (send pkt c) _ (send-Moved pkt c) (set_vs-Moved (send pkt c))

  expansion-Moved :
      (c : Socket) → Yields (λ r. Moved c.state c r.1) (build_expansion_realm_packet env c)
  unfolding build_expansion_realm_packet
  expansion-Moved c = elim (Option-cases (list_expansion env c)) [
    | inl e ↦ rw e tt
    | inr ((pkt, amounts), e) ↦ rw e (refl, λ h. h)
  ]

  pub send_realm_list-Moved : (c : Socket) → Yields (Ended c) (send_realm_list env c)
  unfolding send_realm_list
  send_realm_list-Moved c =
      Yields-if (Ended c) (c.client_build == 5875) _ _
        (λ e. elim (Option-cases (build_realm_packet env c)) [
          | inl e ↦ rw e tt
          | inr (pkt, e) ↦ rw e (inl (send-Moved pkt c))
        ])
        (λ e.
          Yields-if (Ended c) (is_expansion_build c.client_build) _ _
            (λ e.
              Yields-bind (λ r. Moved c.state c r.1) (Ended c) (build_expansion_realm_packet env c)
                (λ r. some (send r.0 r.1)) (expansion-Moved c)
                (λ r m. inl (Moved-Steady c r.1 (send r.0 r.1) m (send-Moved r.0 r.1))))
            (λ e. die-Ended c))

  pub get_char_amount-Moved :
      (amnt : List (ℕ × ℕ)) (c : Socket) → Yields (Ended c) (get_char_amount env amnt c)
  unfolding get_char_amount die
  get_char_amount-Moved amnt c =
      let c' = record c { realm_char_amount = amnt } in
      Yields-if (Ended c) (c.client_build == 5875) _ _
        (λ e. elim (Option-cases (build_realm_packet env c')) [
          | inl e ↦ rw e tt
          | inr (pkt, e) ↦ rw e (Ended-Moved c (set_vs env (send pkt c')) (set_vs_sent c' pkt))
        ])
        (λ e.
          Yields-if (Ended c) (is_expansion_build c.client_build) _ _
            (λ e.
              Yields-bind (λ r. Moved c'.state c' r.1) (Ended c)
                (build_expansion_realm_packet env c') (λ r. set_vs env (send r.0 r.1))
                (expansion-Moved c')
                (λ r m.
                  Ended-Moved c (set_vs env (send r.0 r.1))
                    (after c' r.1 (set_vs env (send r.0 r.1)) m (set_vs_sent r.1 r.0))))
            (λ e. die-Ended c))
