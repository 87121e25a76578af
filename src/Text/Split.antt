-- ===== src/Text/Split.antt =====
-- common/Util.h, StrSplit: what the pieces are.
use morfeusz.Base.{
  ℕ, suc, ◌<◌, ◌≡◌, refl, ap, ◌∙◌, List, [], ◌∷◌, ◌++◌, append_assoc, false, if◌then◌else◌,
  Bool-cases, inl, inr, lt→ltb, length, arith,
}
use morfeusz.Text.{has_char, split_loop, str_split}

-- The text without the separators.
pub without : List ℕ → List ℕ → List ℕ
without sep [] = []
without sep (c ∷ src) = let rest = without sep src in if has_char sep c then rest else c ∷ rest

pub join : List (List ℕ) → List ℕ
join [] = []
join (s ∷ pieces) = s ++ join pieces

unfoldable pub IsFree : List ℕ → List ℕ → Type 0
IsFree sep [] = Unit
IsFree sep (c ∷ s) = (has_char sep c ≡ false) × IsFree sep s

-- Every piece has a character, and none of the separators.
pub ArePieces : List ℕ → List (List ℕ) → Type 0
ArePieces sep [] = Unit
ArePieces sep (s ∷ pieces) = (0 < length s) × IsFree sep s × ArePieces sep pieces

join-split_loop : (sep s src : List ℕ) → join (split_loop sep s src) ≡ s ++ without sep src
unfolding join split_loop without
join-split_loop sep [] [] = refl
join-split_loop sep (x ∷ s) [] = rw (lt→ltb 0 (suc (length s)) (omega arith)) refl
join-split_loop sep [] (c ∷ src) = elim (Bool-cases (has_char sep c)) [
  | inl e ↦ rw e (join-split_loop sep [] src)
  | inr e ↦ rw e (join-split_loop sep (c ∷ []) src)
]
join-split_loop sep (x ∷ s) (c ∷ src) = elim (Bool-cases (has_char sep c)) [
  | inl e ↦
      rw (e, lt→ltb 0 (suc (length s)) (omega arith))
        (ap (◌++◌ (x ∷ s)) (join-split_loop sep [] src))
  | inr e ↦
      rw e (
        join-split_loop sep (x ∷ s ++ c ∷ []) src ∙ append_assoc (x ∷ s) (c ∷ []) (without sep src))
]

IsFree-append : (sep s t : List ℕ) → IsFree sep s → IsFree sep t → IsFree sep (s ++ t)
unfolding IsFree
IsFree-append sep [] t h k = k
IsFree-append sep (c ∷ s) t (e, h) k = (e, IsFree-append sep s t h k)

split_loop-ArePieces : (sep s src : List ℕ) → IsFree sep s → ArePieces sep (split_loop sep s src)
unfolding ArePieces split_loop IsFree
split_loop-ArePieces sep [] [] h = tt
split_loop-ArePieces sep (x ∷ s) [] h =
    rw (lt→ltb 0 (suc (length s)) (omega arith)) (omega arith, h, tt)
split_loop-ArePieces sep [] (c ∷ src) h = elim (Bool-cases (has_char sep c)) [
  | inl e ↦ rw e (split_loop-ArePieces sep [] src tt)
  | inr e ↦ rw e (split_loop-ArePieces sep (c ∷ []) src (e, tt))
]
split_loop-ArePieces sep (x ∷ s) (c ∷ src) h = elim (Bool-cases (has_char sep c)) [
  | inl e ↦
      rw (e, lt→ltb 0 (suc (length s)) (omega arith))
        (omega arith, h, split_loop-ArePieces sep [] src tt)
  | inr e ↦ rw e (
      split_loop-ArePieces sep (x ∷ s ++ c ∷ []) src (IsFree-append sep (x ∷ s) (c ∷ []) h (e, tt)))
]

-- The pieces have no separator and are not empty, and in order they are the text without its
-- separators.
pub str_split_lem :
    (src sep : List ℕ)
    → ArePieces sep (str_split src sep) × (join (str_split src sep) ≡ without sep src)
unfolding str_split IsFree
str_split_lem src sep = (split_loop-ArePieces sep [] src tt, join-split_loop sep [] src)
