-- ===== src/ByteBuffer/PackGuid/RoundTrip.antt =====
-- common/ByteBuffer.h, appendPackGUID: a client that reads the mask gets the number back.
use morfeusz.Base.{
  ℕ, zero, suc, ◌+◌, ◌*◌, ◌/◌, ◌%◌, true, false, List, [], ◌∷◌, ◌++◌, Option, none, some, ◌>>=◌,
  ◌==◌, if◌then◌else◌,
}
use morfeusz.ByteBuffer.{ByteBuffer}
use morfeusz.ByteBuffer.Append.{filled}

-- The mask of the nonzero bytes of a number, and those bytes, lowest first.
unfoldable pub mask_of : ℕ → ℕ → ℕ
mask_of zero v = 0
mask_of (suc n) v = (if v % 256 == 0 then 0 else 1) + 2 * mask_of n (v / 256)

unfoldable pub bytes_of : ℕ → ℕ → List ℕ
bytes_of zero v = []
bytes_of (suc n) v =
    let rest = bytes_of n (v / 256) in if v % 256 == 0 then rest else v % 256 ∷ rest

-- How a client reads the bytes that a mask of `n` places announces.
unfoldable pub unpack_bytes : ℕ → ℕ → List ℕ → Option (ℕ × List ℕ)
unpack_bytes zero mask bs = some (0, bs)
unpack_bytes (suc n) mask bs = elim (mask % 2 == 0) [
  | true ↦ unpack_bytes n (mask / 2) bs >>= λ r. some (256 * r.0, r.1)
  | false ↦ elim bs [
    | [] ↦ none
    | b ∷ rest ↦ unpack_bytes n (mask / 2) rest >>= λ r. some (b + 256 * r.0, r.1)
  ]
]

unfoldable pub unpack_guid : List ℕ → Option (ℕ × List ℕ)
unfolding unpack_bytes
unpack_guid [] = none
unpack_guid (mask ∷ bs) = unpack_bytes 8 mask bs

-- A buffer that ends with a mask and the bytes behind it.
abbrev masked : List ℕ → ℕ → List ℕ → ℕ → ByteBuffer
masked ys m bs r = filled (ys ++ m ∷ bs) r
