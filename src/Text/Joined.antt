-- ===== src/Text/Joined.antt =====
-- common/Util.h, StrSplit: the pieces of a text that was joined with one separator.
use morfeusz.Base.{
  ℕ, ◌≡◌, ap, ◌∙◌, sym, Bool, List, [], ◌∷◌, ◌++◌, append_assoc, append-nil, ltb, length,
  if◌then◌else◌, arith,
}
use morfeusz.Text.{has_char, split_loop, str_split}
use morfeusz.Text.Split.{IsFree}

abbrev pub given : List ℕ → Bool
given s = ltb 0 (length s)

-- A piece, if it is not empty.
abbrev pub keep : List ℕ → List (List ℕ) → List (List ℕ)
keep s pieces = if given s then s ∷ pieces else pieces

module _ (x : ℕ) where
  split_loop-append :
      (s t rest : List ℕ)
      → IsFree (x ∷ []) t
      → split_loop (x ∷ []) s (t ++ rest) ≡ split_loop (x ∷ []) (s ++ t) rest
  unfolding split_loop IsFree
  split_loop-append s [] rest free = ap (λ l. split_loop (x ∷ []) l rest) (sym (append-nil s))
  split_loop-append s (c ∷ t) rest free = rw free.0 (
      split_loop-append (s ++ c ∷ []) t rest free.1
      ∙ ap (λ l. split_loop (x ∷ []) l rest) (append_assoc s (c ∷ []) t))

  split_loop-sep :
      (s rest : List ℕ) → split_loop (x ∷ []) s (x ∷ rest) ≡ keep s (split_loop (x ∷ []) [] rest)
  unfolding split_loop has_char
  split_loop-sep s rest = ground arith

  -- A piece and a separator in front of a text.
  pub str_split-keep :
      (t rest : List ℕ)
      → IsFree (x ∷ []) t
      → str_split (t ++ x ∷ rest) (x ∷ []) ≡ keep t (str_split rest (x ∷ []))
  unfolding str_split
  str_split-keep t rest free = split_loop-append [] t (x ∷ rest) free ∙ split_loop-sep t rest

  -- One piece.
  pub str_split_last : (t : List ℕ) → IsFree (x ∷ []) t → str_split t (x ∷ []) ≡ keep t []
  unfolding str_split split_loop
  str_split_last t free =
      ap (split_loop (x ∷ []) []) (sym (append-nil t)) ∙ split_loop-append [] t [] free
