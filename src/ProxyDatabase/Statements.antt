-- ===== src/ProxyDatabase/Statements.antt =====
-- proxyd/Proxy_Database.cpp, ProxyDatabaseConnection::open: the statements that are prepared. The names
-- of the two databases come from the configuration.
use Prim.Native.String.{String}
use morfeusz.Base.{ℕ, List, [], ◌∷◌, ◌++◌, Option, none, some, ◌>>=◌, set, replicate}
use morfeusz.Database.Sql.{codes, c_str}
use morfeusz.ProxyDatabase.{
  proxyd_db_get_acct, proxyd_db_get_char, proxyd_db_get_plr_guid_from_name,
  proxyd_db_get_char_count, proxyd_db_get_numchar, proxyd_db_incr_numchar, proxyd_db_ins_char,
  proxyd_db_load_plr_createinfo,
}

abbrev proxyd_db_get_char_max_guid : ℕ
proxyd_db_get_char_max_guid = 8

-- A text around a name, as a C string.
abbrev named : String → List ℕ → String → List ℕ
named before name after = c_str (codes before ++ name ++ codes after)

-- The ADD_STMT lines, in order.
unfoldable pub proxy_sql : List ℕ → List ℕ → List (ℕ × List ℕ)
proxy_sql realmdb worlddb =
    (
      proxyd_db_get_acct,
      named "SELECT id, gmlevel, sessionkey, sha_pass_hash, v, s, expansion FROM " realmdb
          ".account WHERE username = ?",
    )
    ∷ (
      proxyd_db_get_char,
      codes
          "SELECT guid, name, race, class, gender, level, playerBytes, playerBytes2, position_x, position_y, position_z, map, zone FROM characters WHERE account = ?",
    )
    ∷ (proxyd_db_get_plr_guid_from_name, codes "SELECT guid FROM characters WHERE name = ?")
    ∷ (proxyd_db_get_char_count, codes "SELECT COUNT(guid) FROM characters WHERE account = ?")
    ∷ (
      proxyd_db_get_numchar,
      named "SELECT CAST(SUM(numchars) AS unsigned) FROM " realmdb
          ".realmcharacters WHERE acctid = ?",
    )
    ∷ (
      proxyd_db_incr_numchar,
      named "UPDATE " realmdb
          ".realmcharacters SET numchars = numchars + 1 WHERE realmid = ? AND acctid = ?",
    )
    ∷ (
      proxyd_db_ins_char,
      codes
          "INSERT INTO characters (guid, account, name, race, class, gender, level, playerBytes, playerBytes2, zone, map, position_x, position_y, position_z) VALUES (?, ?, ?, ?, ?, ?, ?, ?, ?, ?, ?, ?, ?, ?)",
    )
    ∷ (
      proxyd_db_load_plr_createinfo,
      named "SELECT race, class, map, zone, position_x, position_y, position_z FROM " worlddb
          ".player_createinfo",
    )
    ∷ (proxyd_db_get_char_max_guid, codes "SELECT MAX(guid) FROM characters")
    ∷ []

-- `prepare` is the connection's prepareStatement: `none` is an exception, upon which the program ends.
module _ {S : Type 0} (prepare : List ℕ → Option S) where
  unfoldable pub add_proxy_stmts : List (ℕ × List ℕ) → List (Option S) → Option (List (Option S))
  add_proxy_stmts [] holder = some holder
  add_proxy_stmts ((x, y) ∷ rest) holder =
      prepare y >>= λ s. add_proxy_stmts rest (set holder x (some s))

  unfoldable pub open_proxy_database : List ℕ → List ℕ → Option (List (Option S))
  unfolding add_proxy_stmts proxy_sql
  open_proxy_database realmdb worlddb =
      add_proxy_stmts (proxy_sql realmdb worlddb) (replicate 9 none)
