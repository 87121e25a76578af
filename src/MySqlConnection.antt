-- ===== src/MySqlConnection.antt =====
-- database/MySQL/MySQLConnection.cpp: the connection to a server. The client library is a parameter,
-- and the texts of the exceptions are left out.
pub mod Url
use morfeusz.Base.{ℕ, Bool, true, false, List, [], ◌∷◌, Option, none, some, ◌>>=◌, if◌then◌else◌}
use morfeusz.Text.{str_split}
use morfeusz.MySqlStatement.{Client, Statement, new_statement}

pub record Params : Type 0 where
  pub host : List ℕ
  pub port : List ℕ
  pub user : List ℕ
  pub password : List ℕ
  pub schema : List ℕ

-- The tokens of the connect string; `none` is an exception. The port is the text that atoi is given.
unfoldable pub params_of : List (List ℕ) → Option Params
params_of (host ∷ port ∷ user ∷ password ∷ schema ∷ rest) =
    some (record { host = host; port = port; user = user; password = password; schema = schema })
params_of _ = none

unfoldable pub parse_url : List ℕ → Option Params
unfolding params_of
parse_url url = params_of (str_split url (0x3B ∷ []))

-- What the library does with a server: mysql_init, mysql_real_connect, mysql_close,
-- mysql_set_server_option for several statements, mysql_autocommit, mysql_commit, mysql_rollback, and
-- mysql_stmt_init with mysql_stmt_prepare, which give a handle.
pub record Library (W : Type 0) : Type 0 where
  pub init : W → Bool × W
  pub real_connect : Params → W → Bool × W
  pub close : W → W
  pub multi_statements_on : W → W
  pub autocommit : Bool → W → W
  pub commit : W → W
  pub rollback : W → W
  pub stmt_prepare : List ℕ → W → Option ℕ × W

-- `auto_commit` is `none` before setAutoCommit: the constructor does not set it.
pub record Connection : Type 0 where
  pub closed : Bool
  pub auto_commit : Option Bool

module _ {W : Type 0} (library : Library W) where
  -- The constructor, with the server as an exception leaves it.
  unfoldable pub new_connection : List ℕ → W → Option Connection × W
  unfolding parse_url
  new_connection url w = elim (parse_url url) [
    | none ↦ (none, w)
    | some params ↦
        (let (made, w1) = library.init w in
          let (connected, w2) = library.real_connect params w1 in
          if made
          then (if connected
              then (
                some (record { closed = false; auto_commit = none }),
                library.autocommit true (library.multi_statements_on w2),
              )
              else (none, library.close w2))
          else (none, w1))
  ]

  -- A call that checkClosed guards; `none` is its exception.
  unfoldable pub if_open : (W → W) → Connection → W → Option W
  if_open f c w = if c.closed then none else some (f w)

  unfoldable pub commit : Connection → W → Option W
  unfolding if_open
  commit c w = if_open library.commit c w

  unfoldable pub rollback : Connection → W → Option W
  unfolding if_open
  rollback c w = if_open library.rollback c w

  unfoldable pub set_auto_commit : Bool → Connection → W → Option (Connection × W)
  unfolding if_open
  set_auto_commit auto c w = if_open (library.autocommit auto) c w >>= λ after.
      some (record c { auto_commit = some auto }, after)

  unfoldable pub close : Connection → W → Connection × W
  close c w = (record c { closed = true }, library.close w)

  -- ~MySQLConnection
  destroy : Connection → W → W
  unfolding close
  destroy c w = if c.closed then w else (close c w).1

  module _ {V R : Type 0} (client : Client V R) where
    unfoldable pub prepare_statement : List ℕ → Connection → W → Option Statement × W
    prepare_statement sql c w =
        let (handle, after) = library.stmt_prepare sql w in
        if c.closed
        then (none, w)
        else (elim handle [ none ↦ none | some h ↦ some (new_statement client h) ], after)
