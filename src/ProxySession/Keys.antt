-- ===== src/ProxySession/Keys.antt =====
-- realmd/Realm_Database.cpp, update_account, and proxyd/tbc/Proxy_Handlers.cpp, account_retrieved: the
-- session key goes from one daemon to the other as a number in hexadecimal.
use native.Mathlib.Nat.{pow-suc, pow-le-pow_right}
use morfeusz.Base.{
  ℕ, ◌+◌, ◌*◌, ◌^◌, ◌≤◌, ◌<◌, ◌≡◌, refl, sym, ap, ap₂, subst, ◌∙◌, inl, inr, Bool-cases, List, [],
  ◌∷◌, ◌++◌, reverse, reverse-reverse, append-nil, none, some, arith, ltb, leb, length, take,
  take_all, drop_all, length-reverse, length-append, if◌then◌else◌, AllBytes, AllBytes-append,
  AllBytes-reverse, le_value, le_bytes-le_value, le_value-append, true, false,
}
use morfeusz.Srp.{OpenSsl, IsOpenSsl}
use morfeusz.Database.Sql.{c_str}
use morfeusz.ProxySession.{key_bytes}

le_value-bound : (bs : List ℕ) → AllBytes bs → le_value bs < 256 ^ length bs
unfolding le_value
le_value-bound [] h = omega arith
le_value-bound (b ∷ bs) h = omega (arith, le_value-bound bs h.1, pow-suc 256 (length bs))

below_full : (key : List ℕ) → AllBytes key → length key ≡ 40 → le_value key < 256 ^ 40
below_full key h l = subst (λ n. le_value key < 256 ^ n) l (le_value-bound key h)

le_value-snoc :
    (front : List ℕ) (top : ℕ)
    → length front ≡ 39
    → le_value (front ++ top ∷ []) ≡ le_value front + 256 ^ 39 * top
le_value-snoc front top l =
    le_value-append front (top ∷ [])
    ∙ ap₂ (λ n v. le_value front + 256 ^ n * v) l (unfold le_value in omega arith)

-- Two lists of bytes of one length with one value are the same.
le_value_injective :
    (xs ys : List ℕ)
    → AllBytes xs
    → AllBytes ys
    → length xs ≡ length ys
    → le_value xs ≡ le_value ys
    → xs ≡ ys
le_value_injective xs ys h k l e = sym (le_bytes-le_value xs h) ∙ rw (l, e) (le_bytes-le_value ys k)

module _ (o : OpenSsl) (law : IsOpenSsl o) where
  -- What realmd stores for the 40 bytes of the key that it shares with the client.
  abbrev pub stored : List ℕ → List ℕ
  stored key = o.bn2hex (o.bin2bn (reverse (take 40 key)))

  digits_of : ℕ → List ℕ
  digits_of x = reverse (o.bn2bin x)

  -- A number of 40 bytes has 40 digits.
  digits-full :
      (key : List ℕ)
      → AllBytes key
      → length key ≡ 40
      → 256 ^ 39 ≤ le_value key
      → digits_of (le_value key) ≡ key
  unfolding digits_of
  digits-full key h l big =
      let bin = o.bn2bin (le_value key) in
      let bytes = AllBytes-reverse bin (law.bn2bin_bytes (le_value key)) in
      let bound = le_value-bound (reverse bin) bytes in
      let few = law.bn2bin_length (le_value key) 40 (below_full key h l) in
      let many : length (reverse bin) ≡ 40 = elim (Bool-cases (leb 40 (length (reverse bin)))) [
        | inl enough ↦ ground (arith, length-reverse bin)
        | inr short ↦
            let few_digits : length (reverse bin) ≤ 39 = ground arith in
            let small : 256 ^ length (reverse bin) ≤ 256 ^ 39 =
              pow-le-pow_right (omega arith) few_digits in
            absurd (omega (arith, law.bn2bin_lem (le_value key)))
      ] in
      le_value_injective (reverse bin) key bytes h (many ∙ sym l) (law.bn2bin_lem (le_value key))

  key_bytes-full :
      (key : List ℕ)
      → AllBytes key
      → length key ≡ 40
      → 256 ^ 39 ≤ le_value key
      → key_bytes o (le_value key) ≡ some key
  unfolding key_bytes digits_of
  key_bytes-full key h l big =
      let bin = o.bn2bin (le_value key) in
      let same = digits-full key h l big in
      let many : length bin ≡ 40 = sym (length-reverse bin) ∙ ap length same ∙ l in
      let enough : leb 40 (length bin) ≡ true = ground arith in
      rw
        (
          enough,
          take_all 40 bin (omega arith),
          drop_all 40 bin (omega arith),
          append-nil (reverse bin),
        )
        (ap some same)

  key_bytes-short : (x : ℕ) → x < 256 ^ 39 → key_bytes o x ≡ none
  unfolding key_bytes
  key_bytes-short x h =
      let few = law.bn2bin_length x 39 h in
      let short : leb 40 (length (o.bn2bin x)) ≡ false = ground arith in rw short refl

  -- If the number that realmd stored is read back, the proxy hashes the 40 bytes that realmd and the
  -- client share, unless the last of them, the number's first digit, is zero: then it reverses 40 bytes
  -- of a shorter buffer.
  pub key_bytes-stored :
      (front : List ℕ) (top : ℕ)
      → AllBytes front
      → length front ≡ 39
      → top < 256
      → o.hex2bn (c_str (stored (front ++ top ∷ [])))
        ≡ o.bin2bn (reverse (take 40 (front ++ top ∷ [])))
      → key_bytes o (o.hex2bn (c_str (stored (front ++ top ∷ []))))
        ≡ (if ltb 0 top then some (front ++ top ∷ []) else none)
  unfolding key_bytes
  key_bytes-stored front top h l small hex =
      let key = front ++ top ∷ [] in
      let bytes = AllBytes-append front (top ∷ []) h (small, tt) in
      let forty : length key ≡ 40 = omega (arith, length-append front (top ∷ [])) in
      let number : o.hex2bn (c_str (stored key)) ≡ le_value key =
        hex
        ∙ ap (λ k. o.bin2bn (reverse k)) (take_all 40 key (omega arith))
        ∙ law.bin2bn_lem (reverse key) (AllBytes-reverse key bytes)
        ∙ ap le_value (reverse-reverse key) in
      let split = le_value-snoc front top l in
      elim (Bool-cases (ltb 0 top)) [
        | inl some_digit ↦
            let positive : 0 < top = ground arith in
            rw (some_digit, number) (key_bytes-full key bytes forty (omega arith))
        | inr no_digit ↦
            let empty : top ≡ 0 = ground arith in
            let below = subst (λ n. le_value front < 256 ^ n) l (le_value-bound front h) in
            rw (no_digit, number) (key_bytes-short (le_value key) (omega arith))
      ]
