-- ===== src/Tests/Files.antt =====
-- The connections to databases and the files of the client's data.
use morfeusz.Base.{
  ℕ, Bool, zero, suc, ◌+◌, ◌^◌, ◌≡◌, ap, ◌<◌, refl, true, false, List, [], ◌∷◌, ◌++◌, none, some,
  u32, arith, replicate, length, get_or, ltb, if◌then◌else◌, ◌&&◌,
}
use morfeusz.Endian.{Host}
use morfeusz.Dbc.{Result}
use morfeusz.Dbc.Cursor.{AllU32}
use morfeusz.Dbc.Store.{DbcStore, load_chr_races_dbc}
use morfeusz.Dbc.Races.{IsRace, race_file, add_races, load_chr_races_dbc-race_file}
use morfeusz.MySqlConnection.{Params, parse_url}
use morfeusz.MySqlConnection.Url.{joined, parse_url-joined}
use morfeusz.Text.Joined.{given}
use morfeusz.SqliteResultSet.{Library, Stepped, ResultSet}
use morfeusz.SqliteResultSet.Shifted.{Cell, blank}

-- host;3306;u;;db, without a password.
abbrev without_password : Params
without_password = record {
  host = 0x68 ∷ [];
  port = 0x33 ∷ 0x33 ∷ 0x30 ∷ 0x36 ∷ [];
  user = 0x75 ∷ [];
  password = [];
  schema = 0x64 ∷ 0x62 ∷ [];
}

parse_url-joined_example : parse_url (joined without_password) ≡ (
    if given without_password.host
      && given without_password.port
      && given without_password.user
      && given without_password.password
      && given without_password.schema
    then some without_password
    else none)
unfolding morfeusz.Text.Split.IsFree morfeusz.Text.has_char
parse_url-joined_example =
    parse_url-joined without_password
      ((refl, tt), (refl, (refl, (refl, (refl, tt)))), (refl, tt), tt, (refl, (refl, tt)))

abbrev row : List Cell
row =
    record { number = 11; double = 11; text = 0x31 ∷ 0x31 ∷ [] }
    ∷ record { number = 2 ^ 33 + 5; double = 5; text = 0x35 ∷ [] }
    ∷ []

-- A statement whose row has two columns.
abbrev two_columns : Library ℕ
two_columns = record {
  column_count = λ w. 2;
  step = λ w. (Stepped.row, w + 1);
  column_int = λ w i. u32 (get_or row i blank).number;
  column_int64 = λ w i. (get_or row i blank).number;
  column_double = λ w i. (get_or row i blank).double;
  column_bytes = λ w i. length (get_or row i blank).text;
  column_text = λ w i. some (get_or row i blank).text;
}

abbrev on_row : ResultSet
on_row = record { row_position = 1; num_rows = 1; num_fields = 2 }

-- The record of the first race, whose names all begin at the second byte of the texts.
abbrev numbers : List ℕ
numbers = 1 ∷ 12 ∷ 1 ∷ 0 ∷ 49 ∷ 50 ∷ 0 ∷ 0 ∷ 7 ∷ 7 ∷ 0 ∷ 0 ∷ 0 ∷ 81 ∷ []

abbrev race : List ℕ
race = numbers ++ (replicate 16 1 ++ (replicate 39 0 ++ []))

abbrev texts : List ℕ
texts = 0 ∷ 0x48 ∷ 0x75 ∷ []

abbrev no_tables : DbcStore
no_tables = record {
  path = [];
  items = [];
  spell_item_enchantments = [];
  chr_races = [];
  chr_classes = [];
}

get_or-append : (xs ys : List ℕ) (k : ℕ) → get_or (xs ++ ys) (length xs + k) 0 ≡ get_or ys k 0
get_or-append [] ys k = ap (λ j. get_or ys j 0) (omega arith)
get_or-append (x ∷ xs) ys k =
    let next : suc (length xs) + k ≡ suc (length xs + k) = omega arith in
    rw next (get_or-append xs ys k)

get_or-replicate : (n v k : ℕ) (vs : List ℕ) → k < n → get_or (replicate n v ++ vs) k 0 ≡ v
get_or-replicate zero v k vs h = absurd (omega arith)
get_or-replicate (suc n) v zero vs h = refl
get_or-replicate (suc n) v (suc k) vs h = get_or-replicate n v k vs (omega arith)

abbrev all_fit : List ℕ → Bool
all_fit [] = true
all_fit (v ∷ vs) = if ltb v (2 ^ 32) then all_fit vs else false

all_fit-AllU32 : (vs : List ℕ) → all_fit vs ≡ true → AllU32 vs
all_fit-AllU32 [] h = tt
all_fit-AllU32 (v ∷ vs) h = (ground arith, all_fit-AllU32 vs (ground arith))

race-IsRace : IsRace texts race
race-IsRace = record {
  fields = refl;
  numbers = all_fit-AllU32 race refl;
  named = λ i h. omega (
    arith,
    get_or-append numbers (replicate 16 1 ++ (replicate 39 0 ++ [])) i,
    get_or-replicate 16 1 i (replicate 39 0 ++ []) h,
  );
}

load_chr_races_dbc-race_file_example :
    load_chr_races_dbc Host.little (race_file (race ∷ []) texts) no_tables
    ≡ Result.ok (record no_tables { chr_races = add_races (race ∷ []) [] })
load_chr_races_dbc-race_file_example =
    load_chr_races_dbc-race_file (race ∷ []) texts (race-IsRace, tt) (omega arith) no_tables
      (omega arith)
