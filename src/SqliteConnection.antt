-- ===== src/SqliteConnection.antt =====
-- database/SQLite/SQLiteConnection.cpp: the connection to a file. The library is a parameter, and the
-- texts of the exceptions are left out.

use morfeusz.Base.{ℕ, Bool, true, false, List, [], ◌∷◌, Option, none, some, ◌>>=◌, if◌then◌else◌}
use morfeusz.Text.{str_split}

-- sqlite3_threadsafe, and sqlite3_open_v2, sqlite3_close and sqlite3_prepare_v2; the last gives a
-- statement.
record Library (W S : Type 0) : Type 0 where
  pub threadsafe : Bool
  pub open_v2 : List ℕ → W → Bool × W
  pub close : W → W
  pub prepare_v2 : List ℕ → W → Option S × W

-- `auto_commit` is `none` before setAutoCommit: the constructor does not set it.
record Connection : Type 0 where
  pub closed : Bool
  pub auto_commit : Option Bool

-- The database is the first token of the connect string.
database_of : List (List ℕ) → Option (List ℕ)
database_of [] = none
database_of (database ∷ rest) = some database

check_closed : Connection → Option (Unit {0})
check_closed c = if c.closed then none else some tt

-- The library is told nothing of commit, rollback and the mode.
commit : Connection → Option (Unit {0})
unfolding check_closed
commit c = check_closed c

rollback : Connection → Option (Unit {0})
unfolding check_closed
rollback c = check_closed c

set_auto_commit : Bool → Connection → Option Connection
unfolding check_closed
set_auto_commit auto c = check_closed c >>= λ _. some (record c { auto_commit = some auto })

module _ {W S : Type 0} (library : Library W S) where
  new_connection : List ℕ → W → Option Connection × W
  unfolding database_of
  new_connection url w = elim (database_of (str_split url (0x3B ∷ []))) [
    | none ↦ (none, w)
    | some database ↦
        (let (opened, after) = library.open_v2 database w in
          if library.threadsafe
          then (
            if opened then some (record { closed = false; auto_commit = none }) else none,
            after,
          )
          else (none, w))
  ]

  close : Connection → W → Connection × W
  close c w = (record c { closed = true }, library.close w)

  destroy : Connection → W → W
  unfolding close
  destroy c w = if c.closed then w else (close c w).1

  prepare_statement : List ℕ → Connection → W → Option S × W
  prepare_statement sql c w = if c.closed then (none, w) else library.prepare_v2 sql w
