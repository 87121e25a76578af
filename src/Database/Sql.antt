-- ===== src/Database/Sql.antt =====
-- The texts of the prepared statements, and the C strings that are added to them.
use Prim.Native.Char.{code}
use Prim.Native.String.{String}
use morfeusz.Base.{ℕ, ◌+◌, List, [], ◌∷◌, ◌==◌, if◌then◌else◌}

-- A text's characters; the statements are ASCII.
abbrev pub codes : String → List ℕ
codes String.[] = []
codes (String.◌∷◌ c s) = code c ∷ codes s

-- std::string::c_str as a const char* is read: up to the first NUL.
unfoldable pub c_str : List ℕ → List ℕ
c_str [] = []
c_str (c ∷ s) = let rest = c_str s in if c == 0 then [] else c ∷ rest

-- How many values a prepared statement takes: one for each `?`.
unfoldable pub placeholders : List ℕ → ℕ
placeholders [] = 0
placeholders (c ∷ s) = let rest = placeholders s in if c == b'?' then 1 + rest else rest

-- DatabaseTaskPriority, and what enqueue and enqueue_with_priority are given.
pub data TaskPriority : Type 0 where
  priority_low priority_medium priority_high : TaskPriority
