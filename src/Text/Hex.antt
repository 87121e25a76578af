-- ===== src/Text/Hex.antt =====
-- common/Util.h: reading the hexadecimal form of a byte array gives the array back.
use morfeusz.Base.{
  ℕ, ◌+◌, ◌*◌, ◌/◌, ◌%◌, ◌≤◌, ◌<◌, ◌≡◌, refl, List, [], ◌∷◌, ◌++◌, false, some, le→leb, ◌==◌, u8,
  length, drop, AllBytes, arith,
}
use morfeusz.Text.{
  hex_digit, byte_array_to_ascii_string, digit_value, is_space, skip_spaces, read_pairs,
  ascii_hex_string_to_byte_array,
}

digit_value-hex_digit : (n : ℕ) → n < 16 → digit_value (hex_digit n) ≡ n
unfolding digit_value hex_digit
digit_value-hex_digit n h = ground arith

is_space-hex_digit : (n : ℕ) → is_space (hex_digit n) ≡ false
unfolding is_space hex_digit
is_space-hex_digit n = ground arith

skip_spaces-hex :
    (bytes : List ℕ)
    → skip_spaces (byte_array_to_ascii_string bytes) ≡ byte_array_to_ascii_string bytes
unfolding skip_spaces byte_array_to_ascii_string
skip_spaces-hex [] = refl
skip_spaces-hex (b ∷ bytes) =
    rw (is_space-hex_digit (b / 16), is_space-hex_digit (b % 16), skip_spaces-hex bytes) refl

length-hex : (bytes : List ℕ) → length (byte_array_to_ascii_string bytes) ≡ 2 * length bytes
unfolding byte_array_to_ascii_string
length-hex [] = refl
length-hex (b ∷ bytes) = omega (arith, length-hex bytes)

read_pairs-hex :
    (bytes : List ℕ)
    → AllBytes bytes
    → read_pairs (length bytes) (byte_array_to_ascii_string bytes) ≡ some bytes
unfolding read_pairs byte_array_to_ascii_string
read_pairs-hex [] h = refl
read_pairs-hex (b ∷ bytes) (hb, h) =
    let whole : u8 (b / 16 * 16 + b % 16) ≡ b = omega arith in
    rw
      (
        digit_value-hex_digit (b / 16) (omega arith),
        digit_value-hex_digit (b % 16) (omega arith),
        read_pairs-hex bytes h,
        whole,
      )
      refl

-- An array that is written out in hexadecimal is read back into the start of any array that is
-- long enough, whose other bytes stay.
pub hex_round_trip :
    (bytes out : List ℕ)
    → AllBytes bytes
    → length bytes ≤ length out
    → ascii_hex_string_to_byte_array (byte_array_to_ascii_string bytes) out
      ≡ some (bytes ++ drop (length bytes) out)
unfolding ascii_hex_string_to_byte_array
hex_round_trip bytes out h fits =
    let l = length-hex bytes in
    let half : length (byte_array_to_ascii_string bytes) / 2 ≡ length bytes = omega (arith, l) in
    let even : (length (byte_array_to_ascii_string bytes) % 2 == 1) ≡ false = ground (arith, l) in
    rw
      (
        even,
        half,
        le→leb (length bytes) (length out) fits,
        skip_spaces-hex bytes,
        read_pairs-hex bytes h,
      )
      refl
