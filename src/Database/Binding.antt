-- ===== src/Database/Binding.antt =====
-- database/Database.cpp: execute's loop gives a driver's statement the values that were added, or
-- stops where the statement has no place for one.
use native.Mathlib.Nat.{eq-or-lt_of_le}
use morfeusz.Base.{
  ℕ, suc, ◌+◌, ◌-◌, ◌%◌, ◌^◌, ◌≤◌, ◌<◌, ◌≡◌, refl, sym, ap, subst, ◌∙◌, inl, inr, true, false, List,
  [], ◌∷◌, ◌++◌, map, append_assoc, append-nil, Option, none, some, arith, length, set, take, drop,
  length-set, take-append-drop, take-set_next, drop-set_below,
}
use morfeusz.Endian.{Host}
use morfeusz.Database.{StatementData}
use morfeusz.Database.Driver.{Driver, IsDriver, Value, value_of, Fits}
use morfeusz.Database.Execute.{bind_loop, param_of}

module _ (host : Host) (double_of : ℕ → ℕ) where
  abbrev pub value_at : StatementData → Option Value
  value_at x = some (value_of (param_of host double_of x))

  abbrev pub AllFit : List StatementData → Type 0
  AllFit [] = Unit {0}
  AllFit (x ∷ xs) = Fits (param_of host double_of x) × AllFit xs

module _ (host : Host) (double_of : ℕ → ℕ) {S W R : Type 0} (d : Driver S W R)
    (bound : S → List (Option Value)) (law : IsDriver d bound) where
  -- The index is not cut to eight bits where it is below 255.
  bind_loop_step :
      (i : ℕ) (x : StatementData) (xs : List StatementData) (s : S)
      → i < 255
      → bind_loop host double_of d i (x ∷ xs) s
        ≡ elim (d.set_param (i + 1) (param_of host double_of x) s) [
          | none ↦ (false, s)
          | some t ↦ bind_loop host double_of d (i + 1) xs t
        ]
  unfolding bind_loop
  bind_loop_step i x xs s h =
      let width : (i + 1) % 2 ^ 8 ≡ i + 1 = omega arith in
      ap
        (λ k. elim (d.set_param k (param_of host double_of x) s) [
          | none ↦ (false, s)
          | some t ↦ bind_loop host double_of d (i + 1) xs t
        ])
        width

  bind_loop_set :
      (i : ℕ) (x : StatementData) (xs : List StatementData) (s r : S)
      → i < 255
      → d.set_param (i + 1) (param_of host double_of x) s ≡ some r
      → bind_loop host double_of d i (x ∷ xs) s ≡ bind_loop host double_of d (i + 1) xs r
  unfolding bind_loop
  bind_loop_set i x xs s r h e =
      bind_loop_step i x xs s h
      ∙ ap (λ o. elim o [ none ↦ (false, s) | some t ↦ bind_loop host double_of d (i + 1) xs t ]) e

  bind_loop_stop :
      (i : ℕ) (x : StatementData) (xs : List StatementData) (s : S)
      → i < 255
      → d.set_param (i + 1) (param_of host double_of x) s ≡ none
      → bind_loop host double_of d i (x ∷ xs) s ≡ (false, s)
  unfolding bind_loop
  bind_loop_stop i x xs s h e =
      bind_loop_step i x xs s h
      ∙ ap (λ o. elim o [ none ↦ (false, s) | some t ↦ bind_loop host double_of d (i + 1) xs t ]) e

  pub bind_loop-in :
      (i : ℕ) (xs : List StatementData) (s : S)
      → AllFit host double_of xs
      → i + length xs ≤ length (bound s)
      → length (bound s) ≤ 255
      → (r : S) × (bind_loop host double_of d i xs s ≡ (true, r))
        × (bound r
            ≡ take i (bound s)
              ++ map (value_at host double_of) xs
              ++ drop (i + length xs) (bound s))
  unfolding bind_loop
  bind_loop-in i [] s f h k =
      let end : i + 0 ≡ i = omega arith in
      (s, refl, sym (rw (append-nil (take i (bound s)), end) (take-append-drop i (bound s))))
  bind_loop-in i (x ∷ xs) s f h k =
      let place : i + 1 - 1 ≡ i = omega arith in
      let step = law.set-in (i + 1) (param_of host double_of x) s f.0 (omega arith) (omega arith) in
      let r = step.0 in
      let same : length (bound r) ≡ length (bound s) =
        ap length step.2 ∙ length-set (bound s) (i + 1 - 1) (value_at host double_of x) in
      let here : bound r ≡ set (bound s) i (value_at host double_of x) =
        subst (λ k. bound r ≡ set (bound s) k (value_at host double_of x)) place step.2 in
      let rest = bind_loop-in (i + 1) xs r f.1 (omega arith) (omega arith) in
      let one : i + 1 ≡ suc i = omega arith in
      let far : i + 1 + length xs ≡ i + suc (length xs) = omega arith in
      let taken : take (i + 1) (bound r) ≡ take i (bound s) ++ value_at host double_of x ∷ [] =
        rw here (
          ap (λ k. take k (set (bound s) i (value_at host double_of x))) one
          ∙ take-set_next (bound s) i (value_at host double_of x) (omega arith)) in
      let dropped : drop (i + 1 + length xs) (bound r) ≡ drop (i + suc (length xs)) (bound s) =
        rw here (
          drop-set_below (bound s) i (i + 1 + length xs) (value_at host double_of x) (omega arith)
          ∙ ap (λ k. drop k (bound s)) far) in
      (
        rest.0,
        bind_loop_set i x xs s step.0 (omega arith) step.1 ∙ rest.1,
        rest.2
            ∙ rw
                (
                  taken,
                  dropped,
                  append_assoc (take i (bound s)) (value_at host double_of x ∷ [])
                      (map (value_at host double_of) xs),
                )
                refl,
      )

  pub bind_loop-out :
      (i : ℕ) (xs : List StatementData) (s : S)
      → AllFit host double_of xs
      → i ≤ length (bound s)
      → length (bound s) < i + length xs
      → length (bound s) < 255
      → (r : S) × (bind_loop host double_of d i xs s ≡ (false, r))
  unfolding bind_loop
  bind_loop-out i [] s f l h k = absurd (omega arith)
  bind_loop-out i (x ∷ xs) s f l h k = elim (eq-or-lt_of_le l) [
    | inr inside ↦
        let place : i + 1 - 1 ≡ i = omega arith in
        let step =
          law.set-in (i + 1) (param_of host double_of x) s f.0 (omega arith) (omega arith) in
        let same : length (bound step.0) ≡ length (bound s) =
          ap length step.2 ∙ length-set (bound s) (i + 1 - 1) (value_at host double_of x) in
        let rest = bind_loop-out (i + 1) xs step.0 f.1 (omega arith) (omega arith) (omega arith) in
        (rest.0, bind_loop_set i x xs s step.0 (omega arith) step.1 ∙ rest.1)
    | inl outside ↦ (
      s,
      bind_loop_stop i x xs s (omega arith)
          (law.set-out (i + 1) (param_of host double_of x) s (inr (omega arith))),
    )
  ]
