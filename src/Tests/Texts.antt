-- ===== src/Tests/Texts.antt =====
-- A byte array in hexadecimal.
use morfeusz.Base.{ℕ, ◌≡◌, List, [], ◌∷◌, ◌++◌, some, arith, length, drop, replicate}
use morfeusz.Text.{byte_array_to_ascii_string, ascii_hex_string_to_byte_array}
use morfeusz.Text.Hex.{hex_round_trip}

abbrev key : List ℕ
key = 0x00 ∷ 0x9A ∷ 0xFF ∷ []

hex_round_trip_example :
    ascii_hex_string_to_byte_array (byte_array_to_ascii_string key) (replicate 5 7)
    ≡ some (key ++ drop (length key) (replicate 5 7))
hex_round_trip_example = hex_round_trip key (replicate 5 7) (ground arith) (omega arith)
