-- ===== src/RealmSocket/Handlers/Attempts.antt =====
-- realmd/Realm_Socket.cpp, handle_failed_login: what one wrong password leaves.
use morfeusz.Base.{
  ℕ, ◌+◌, ◌<◌, ◌≡◌, refl, sym, ap, ◌∙◌, Bool, true, false, Bool-cases, inl, inr, List, [], ◌∷◌,
  ◌++◌, some, ltb, if◌then◌else◌, arith, u8, bytes_eq, le_bytes, length-append, length-le_bytes,
}
use morfeusz.Endian.{Host}
use morfeusz.ByteBuffer.{ByteBuffer}
use morfeusz.ByteBuffer.Append.{filled, append-Writes}
use morfeusz.RealmSocket.{Account, Call, Socket, ℤ, Env, call, send}
use morfeusz.RealmSocket.Packets.{build_challenge_result}
use morfeusz.RealmSocket.Handlers.{
  exceeds, count_failed_login, handle_failed_login, account_checked, answer, login_of,
}

-- Whether a call is a ban, and the bans among the calls.
pub is_ban : Call → ℕ
is_ban (Call.ban_account id) = 1
is_ban (Call.ban_ip ip) = 1
is_ban _ = 0

pub bans : List Call → ℕ
bans [] = 0
bans (x ∷ calls) = is_ban x + bans calls

bans-append : (xs ys : List Call) → bans (xs ++ ys) ≡ bans xs + bans ys
unfolding bans
bans-append [] ys = omega arith
bans-append (x ∷ xs) ys = omega (arith, bans-append xs ys)

bans-call : (x : Call) (c : Socket) → bans (call x c).calls ≡ bans c.calls + is_ban x
unfolding call bans
bans-call x c = omega (arith, bans-append c.calls (x ∷ []))

-- The three bytes of build_challenge_result for 4.
rejection : (host : Host) → (pkt : ByteBuffer) × (build_challenge_result host 4 ≡ some pkt)
unfolding build_challenge_result le_bytes
rejection host =
    rw
      (
        append-Writes host 1 0 [] 0 (omega arith),
        append-Writes host 1 0 (le_bytes 1 0) 0 (omega (arith, length-le_bytes 1 0)),
        append-Writes host 1 4 (le_bytes 1 0 ++ le_bytes 1 0) 0
            (omega (arith, length-append (le_bytes 1 0) (le_bytes 1 0), length-le_bytes 1 0)),
      )
      (filled ((le_bytes 1 0 ++ le_bytes 1 0) ++ le_bytes 1 4) 0, refl)

module _ {L : Type 0} (env : Env L) where
  -- What an attempt leaves: the state and the logon, the count, and the bans.
  abbrev pub Left : Socket → Account → ℕ → Socket → Type 0
  Left c acct n c' =
      (c'.state ≡ c.state)
      × (login_of env c' ≡ login_of env c)
      × (c'.acct ≡ acct)
      × (bans c'.calls ≡ n)

  choose :
      (P : Socket → Type 0) (b : Bool) (x y : Socket)
      → (b ≡ true → P x)
      → (b ≡ false → P y)
      → P (if b then x else y)
  choose P true x y hx hy = hx refl
  choose P false x y hx hy = hy refl

  send-Left : (pkt : ByteBuffer) (c : Socket) → Left c c.acct (bans c.calls) (send pkt c)
  unfolding send call bans is_ban
  send-Left pkt c =
      choose (Left c c.acct (bans c.calls)) c.out_active _ _ (λ e. (refl, refl, refl, refl))
        (λ e. (refl, refl, refl, omega (arith, bans-call Call.register_write c)))

  sent-Left :
      (c c1 : Socket) (acct : Account) (n : ℕ) (pkt : ByteBuffer)
      → Left c acct n c1
      → Left c acct n (send pkt c1)
  sent-Left c c1 acct n pkt (s1, l1, a1, b1) =
      let (s, l, a, b) = send-Left pkt c1 in (s ∙ s1, l ∙ l1, a ∙ a1, b ∙ b1)

  -- The socket behind the count and the query that follows it.
  counted : Socket → Socket
  counted c =
      let c = record c { acct = record c.acct { failed_logins = u8 (c.acct.failed_logins + 1) } } in
      call (Call.increment_failed_logins c.acct.id) c

  count_failed_login-Left :
      (m : ℕ) (c : Socket)
      → env.wrong_pass_amnt ≡ ℤ.pos m
      → c.acct.failed_logins + 1 < 256
      → Left c
          (record c.acct { failed_logins = c.acct.failed_logins + 1 })
          (bans c.calls + (if ltb m (c.acct.failed_logins + 1) then 1 else 0))
          (count_failed_login env c)
  unfolding count_failed_login exceeds call bans is_ban counted
  count_failed_login-Left m c e h =
      let n = c.acct.failed_logins + 1 in
      let small : u8 n ≡ n = omega arith in
      let same : record c.acct { failed_logins = u8 n } ≡ record c.acct { failed_logins = n } =
        ap (λ k. record c.acct { failed_logins = k }) small in
      let limit : exceeds (u8 n) env.wrong_pass_amnt ≡ ltb m n =
        ap (λ k. exceeds (u8 n) k) e ∙ ap (λ k. ltb m k) small in
      let c1 = counted c in
      let asked = bans-call (Call.increment_failed_logins c.acct.id) c in
      let P =
        Left c (record c.acct { failed_logins = n }) (bans c.calls + (if ltb m n then 1 else 0)) in
      choose P (exceeds (u8 n) env.wrong_pass_amnt) _ _
        (λ over.
          let above : ltb m n ≡ true = sym limit ∙ over in
          choose P (bytes_eq env.wrong_pass_ban_type (105 ∷ 112 ∷ [])) _ _
            (λ _.
              (refl, refl, same, rw above (omega (arith, asked, bans-call (Call.ban_ip c.ip) c1))))
            (λ _. (
              refl,
              refl,
              same,
              rw above (omega (arith, asked, bans-call (Call.ban_account c.acct.id) c1)),
            )))
        (λ under.
          let below : ltb m n ≡ false = sym limit ∙ under in
          (refl, refl, same, rw below (omega (arith, asked))))

  -- The account and the bans behind one attempt.
  pub counted_acct : Account → Account
  counted_acct acct =
      if env.wrong_pass_ban then record acct { failed_logins = acct.failed_logins + 1 } else acct

  pub counted_logins :
      (acct : Account)
      → (counted_acct acct).failed_logins
        ≡ acct.failed_logins + (if env.wrong_pass_ban then 1 else 0)
  unfolding counted_acct
  counted_logins acct = elim (Bool-cases env.wrong_pass_ban) [
    | inl on ↦ rw on refl
    | inr off ↦ rw off (omega arith)
  ]

  attempted :
      (c : Socket) (b : Bool) (n : ℕ) (c1 : Socket)
      → Left c (record c.acct { failed_logins = c.acct.failed_logins + 1 }) (bans c.calls + n) c1
      → Left c
          (if b then record c.acct { failed_logins = c.acct.failed_logins + 1 } else c.acct)
          (bans c.calls + (if b then n else 0))
          (if b then c1 else c)
  attempted c true n c1 left = left
  attempted c false n c1 left = (refl, refl, refl, omega arith)

  pub handle_failed_login-Left :
      (m : ℕ) (c : Socket)
      → env.wrong_pass_amnt ≡ ℤ.pos m
      → c.acct.failed_logins + 1 < 256
      → (c' : Socket) × (handle_failed_login env c ≡ some c')
        × Left c
            (counted_acct c.acct)
            (bans c.calls
              + (if env.wrong_pass_ban
                  then (if ltb m (c.acct.failed_logins + 1) then 1 else 0)
                  else 0))
            c'
  unfolding handle_failed_login account_checked answer counted_acct
  handle_failed_login-Left m c e h =
      let (pkt, built) = rejection env.host in
      let c1 = if env.wrong_pass_ban then count_failed_login env c else c in
      (
        send pkt c1,
        rw built refl,
        sent-Left c c1 _ _ pkt (
            attempted c env.wrong_pass_ban _ (count_failed_login env c)
              (count_failed_login-Left m c e h)),
      )
