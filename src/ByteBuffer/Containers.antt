-- ===== src/ByteBuffer/Containers.antt =====
-- common/ByteBuffer.h: `<<` and `>>` of std::vector, std::list and std::map, over those of their
-- elements. A vector and a list are the list of their elements, a map the list of its entries by key.
pub mod RoundTrip
use morfeusz.Base.{ℕ, zero, suc, ◌+◌, List, [], ◌∷◌, Option, none, some, ◌>>=◌, length, u32}
use morfeusz.Endian.{Host}
use morfeusz.ByteBuffer.{ByteBuffer, append, read}
use morfeusz.RealmService.Map.{find, map_set}

module _ {A : Type 0} (put : A → ByteBuffer → Option ByteBuffer) where
  unfoldable pub put_all : List A → ByteBuffer → Option ByteBuffer
  put_all [] b = some b
  put_all (a ∷ rest) b = put a b >>= put_all rest

  unfoldable pub write_sequence : Host → List A → ByteBuffer → Option ByteBuffer
  unfolding put_all
  write_sequence host v b = append host 4 (u32 (length v)) b >>= put_all v

module _ {A : Type 0} (get : ByteBuffer → Option (A × ByteBuffer)) where
  -- while (vsize--)
  unfoldable pub get_all : ℕ → ByteBuffer → Option (List A × ByteBuffer)
  get_all zero b = some ([], b)
  get_all (suc vsize) b = do (t, b) ← get b; (v, b) ← get_all vsize b; some (t ∷ v, b)

  unfoldable pub read_sequence : Host → ByteBuffer → Option (List A × ByteBuffer)
  unfolding get_all
  read_sequence host b = do (vsize, b) ← read host 4 b; get_all vsize b

module _ {V : Type 0} (put_key : ℕ → ByteBuffer → Option ByteBuffer)
    (put_value : V → ByteBuffer → Option ByteBuffer) where
  unfoldable pub put_entry : ℕ × V → ByteBuffer → Option ByteBuffer
  put_entry e b = do b ← put_key e.0 b; put_value e.1 b

  unfoldable pub write_map : Host → List (ℕ × V) → ByteBuffer → Option ByteBuffer
  unfolding write_sequence put_entry
  write_map host m b = write_sequence put_entry host m b

-- std::map::insert keeps a value that is there.
unfoldable pub insert : {V : Type 0} → ℕ × V → List (ℕ × V) → List (ℕ × V)
insert e m = elim (find e.0 m) [ none ↦ map_set e.0 e.1 m | some old ↦ m ]

module _ {V : Type 0} (get_key : ByteBuffer → Option (ℕ × ByteBuffer))
    (get_value : ByteBuffer → Option (V × ByteBuffer)) where
  unfoldable pub get_entries : ℕ → List (ℕ × V) → ByteBuffer → Option (List (ℕ × V) × ByteBuffer)
  unfolding insert
  get_entries zero m b = some (m, b)
  get_entries (suc msize) m b = do
    (k, b) ← get_key b
    (v, b) ← get_value b
    get_entries msize (insert (k, v) m) b

  unfoldable pub read_map : Host → ByteBuffer → Option (List (ℕ × V) × ByteBuffer)
  unfolding get_entries
  read_map host b = do (msize, b) ← read host 4 b; get_entries msize [] b
