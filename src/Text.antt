-- ===== src/Text.antt =====
-- common/Util.h: the splitting of texts and the hexadecimal forms of byte arrays. Characters are
-- their codes.
pub mod Hex
pub mod Split
pub mod Joined
pub mod Names
use morfeusz.Base.{
  ℕ, zero, suc, ◌+◌, ◌-◌, ◌*◌, ◌/◌, ◌%◌, Bool, true, false, ◌&&◌, ◌||◌, List, [], ◌∷◌, ◌++◌, Option,
  none, some, ◌>>=◌, ltb, leb, ◌==◌, if◌then◌else◌, length, drop, u8,
}

-- sep.find(c) != std::string::npos
unfoldable pub has_char : List ℕ → ℕ → Bool
has_char [] c = false
has_char (x ∷ xs) c = x == c || has_char xs c

-- The loop of StrSplit, with the piece that is being read.
unfoldable pub split_loop : List ℕ → List ℕ → List ℕ → List (List ℕ)
split_loop sep s [] = if ltb 0 (length s) then s ∷ [] else []
split_loop sep s (c ∷ src) =
    let at_sep = has_char sep c in
    let rest = split_loop sep (if at_sep then [] else s ++ c ∷ []) src in
    if at_sep && ltb 0 (length s) then s ∷ rest else rest

unfoldable pub str_split : List ℕ → List ℕ → List (List ℕ)
str_split src sep = split_loop sep [] src

-- A digit of sprintf's %02X.
pub hex_digit : ℕ → ℕ
hex_digit n = if ltb n 10 then 48 + n else 55 + n

pub byte_array_to_ascii_string : List ℕ → List ℕ
byte_array_to_ascii_string [] = []
byte_array_to_ascii_string (b ∷ bytes) =
    hex_digit (b / 16) ∷ hex_digit (b % 16) ∷ byte_array_to_ascii_string bytes

-- The digit of a character; a malformed one counts as 0.
pub digit_value : ℕ → ℕ
digit_value ch =
    if leb 48 ch && leb ch 57
    then ch - 48
    else if leb 65 ch && leb ch 70
    then ch - 65 + 10
    else if leb 97 ch && leb ch 102
    then ch - 97 + 10
    else 0

-- The stream's `>>` skips white space.
pub is_space : ℕ → Bool
is_space ch = leb 9 ch && leb ch 13 || ch == 32

pub skip_spaces : List ℕ → List ℕ
skip_spaces [] = []
skip_spaces (ch ∷ text) = let rest = skip_spaces text in if is_space ch then rest else ch ∷ rest

-- `size` pairs of digits; `none` is a character that the stream did not have, which is left
-- unset.
pub read_pairs : ℕ → List ℕ → Option (List ℕ)
read_pairs zero text = some []
read_pairs (suc size) [] = none
read_pairs (suc size) (ch1 ∷ []) = none
read_pairs (suc size) (ch1 ∷ ch2 ∷ text) =
    let rest = read_pairs size text in
    rest >>= λ bytes. some (u8 (digit_value ch1 * 16 + digit_value ch2) ∷ bytes)

-- A text of odd length changes nothing; `none` is also a write past the end of the array.
pub ascii_hex_string_to_byte_array : List ℕ → List ℕ → Option (List ℕ)
ascii_hex_string_to_byte_array text out =
    let size = length text / 2 in
    if length text % 2 == 1
    then some out
    else if leb size (length out)
    then (read_pairs size (skip_spaces text) >>= λ bytes. some (bytes ++ drop size out))
    else none
