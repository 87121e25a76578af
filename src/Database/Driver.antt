-- ===== src/Database/Driver.antt =====
-- database/PreparedStatement.h, Connection.h: what Database.cpp calls of a driver, and what its
-- statements promise. `W` is the state of the server, `R` a result set.
use morfeusz.Base.{
  ℕ, ◌-◌, ◌^◌, ◌≤◌, ◌<◌, ◌≡◌, ◌⊎◌, Bool, List, Option, none, some, length, set, replicate,
  if◌then◌else◌, ltb,
}
use morfeusz.RealmSocket.{ℤ}

-- The argument of setBool, setUint32, setUint64, setDouble and setString.
pub data Param : Type 0 where
  bool : Bool → Param
  uint32 uint64 double : ℕ → Param
  string : List ℕ → Param

-- `set_param` is the five setters: `none` is an exception, thrown before anything is changed.
-- `execute` tells if it returned.
pub record Driver (S W R : Type 0) : Type 0 where
  pub set_param : ℕ → Param → S → Option S
  pub clear_parameters : S → S
  pub execute : S → W → Bool × W
  pub execute_query : S → W → Option R × W

-- What a server is told of a parameter: a boolean is an integer, and the integers are signed, as the
-- drivers leave them.
pub data Value : Type 0 where
  long longlong : ℤ → Value
  double : ℕ → Value
  text : List ℕ → Value

-- The number that w bits mean with a sign.
unfoldable pub signed : ℕ → ℕ → ℤ
signed w n = if ltb n (2 ^ (w - 1)) then ℤ.pos n else ℤ.negsuc (2 ^ w - 1 - n)

unfoldable pub value_of : Param → Value
unfolding signed
value_of (Param.bool b) = Value.long (ℤ.pos (if b then 1 else 0))
value_of (Param.uint32 n) = Value.long (signed 32 n)
value_of (Param.uint64 n) = Value.longlong (signed 64 n)
value_of (Param.double n) = Value.double n
value_of (Param.string s) = Value.text s

-- The parameters that have a machine's width.
abbrev pub Fits : Param → Type 0
Fits (Param.bool b) = Unit {0}
Fits (Param.uint32 n) = n < 2 ^ 32
Fits (Param.uint64 n) = n < 2 ^ 64
Fits (Param.double n) = n < 2 ^ 64
Fits (Param.string s) = Unit {0}

-- `bound s` is what the server would be given for each placeholder of `s`.
pub record IsDriver {S W R : Type 0} (d : Driver S W R) (bound : S → List (Option Value))
    : Type 0 where
  pub set-in :
      (i : ℕ) (p : Param) (s : S)
      → Fits p
      → 0 < i
      → i ≤ length (bound s)
      → (r : S) × (d.set_param i p s ≡ some r)
        × (bound r ≡ set (bound s) (i - 1) (some (value_of p)))
  pub set-out :
      (i : ℕ) (p : Param) (s : S) → (i ≡ 0) ⊎ (length (bound s) < i) → d.set_param i p s ≡ none
  pub bound-clear : (s : S) → bound (d.clear_parameters s) ≡ replicate (length (bound s)) none
