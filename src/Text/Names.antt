-- ===== src/Text/Names.antt =====
-- common/Util.h: the names of characters.
use morfeusz.Base.{
  ℕ, Bool, true, not, ◌&&◌, ◌||◌, List, [], ◌∷◌, map, Option, none, some, ltb, leb, ◌==◌, length,
}

-- False for an empty name; toupper and tolower are the C library's.
unfoldable pub normalize_player_name : (ℕ → ℕ) → (ℕ → ℕ) → List ℕ → Option (List ℕ)
normalize_player_name toupper tolower [] = none
normalize_player_name toupper tolower (c ∷ name) = some (toupper c ∷ map tolower name)

between : ℕ → ℕ → ℕ → Bool
between low high c = leb low c && leb c high

unfoldable pub is_basic_latin_character : ℕ → Bool
unfolding between
is_basic_latin_character c = between 0x61 0x7A c || between 0x41 0x5A c

unfoldable pub is_extended_latin_character : ℕ → Bool
unfolding between is_basic_latin_character
is_extended_latin_character c =
    is_basic_latin_character c
    || between 0x00C0 0x00D6 c
    || between 0x00D8 0x00DF c
    || c == 0x00DF
    || between 0x00E0 0x00F6 c
    || between 0x00F8 0x00FE c
    || between 0x0100 0x012F c
    || c == 0x1E9E

-- `wide` is mbstowcs of one byte.
all_latin : (ℕ → ℕ) → List ℕ → Bool
all_latin wide [] = true
all_latin wide (c ∷ name) = is_extended_latin_character (wide c) && all_latin wide name

-- At most twelve bytes, each of them a Latin letter by itself.
unfoldable pub is_valid_name : (ℕ → ℕ) → List ℕ → Bool
unfolding all_latin is_extended_latin_character
is_valid_name wide name = not (ltb 12 (length name)) && all_latin wide name
