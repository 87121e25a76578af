-- ===== src/ProxyDatabase.antt =====
-- proxyd/Proxy_Database.cpp: the requests of ProxyDB, and what its observers take from a result set.
-- `none` is an exception of the result set or an access past its buffers.
pub mod Observers
pub mod Statements
use morfeusz.Base.{ℕ, List, Option, none, some, ◌>>=◌, ◌==◌, if◌then◌else◌}
use morfeusz.Endian.{Host}
use morfeusz.Database.{Operation, new_request, add_uint64, add_string}
use morfeusz.Database.Sql.{c_str}

-- enum ProxyDatabaseStatements
abbrev pub proxyd_db_get_acct : ℕ
proxyd_db_get_acct = 0

abbrev pub proxyd_db_get_char : ℕ
proxyd_db_get_char = 1

abbrev pub proxyd_db_get_plr_guid_from_name : ℕ
proxyd_db_get_plr_guid_from_name = 2

abbrev pub proxyd_db_get_char_count : ℕ
proxyd_db_get_char_count = 3

abbrev pub proxyd_db_get_numchar : ℕ
proxyd_db_get_numchar = 4

abbrev pub proxyd_db_incr_numchar : ℕ
proxyd_db_incr_numchar = 5

abbrev pub proxyd_db_ins_char : ℕ
proxyd_db_ins_char = 6

abbrev pub proxyd_db_load_plr_createinfo : ℕ
proxyd_db_load_plr_createinfo = 7

unfoldable pub get_account : ℕ → List ℕ → Option Operation
unfolding add_string c_str
get_account future login = add_string 1 (c_str login) (new_request proxyd_db_get_acct (some future))

unfoldable pub get_chars : Host → ℕ → ℕ → Option Operation
unfolding add_uint64
get_chars host future acct_id =
    add_uint64 host 1 acct_id (new_request proxyd_db_get_char (some future))

load_player_createinfo : ℕ → Operation
load_player_createinfo future = new_request proxyd_db_load_plr_createinfo (some future)

-- A result set as its getters give it: a column of a row, and how many rows there are.
pub record Rows : Type 0 where
  pub rows_count : ℕ
  pub get_number : ℕ → ℕ → Option ℕ
  pub get_string : ℕ → ℕ → Option (List ℕ)

pub record Account : Type 0 where
  pub id : ℕ
  pub gmlevel : ℕ
  pub sessionkey : List ℕ
  pub sha_pass_hash : List ℕ
  pub v : List ℕ
  pub s : List ℕ
  pub expansion : ℕ

-- Floats are the numbers that their four bytes stand for.
pub record Character : Type 0 where
  pub guid : ℕ
  pub race : ℕ
  pub pclass : ℕ
  pub gender : ℕ
  pub bytes : ℕ
  pub bytes2 : ℕ
  pub level : ℕ
  pub name : List ℕ
  pub x : ℕ
  pub y : ℕ
  pub z : ℕ
  pub map : ℕ
  pub zone : ℕ

-- getAcctObsv::update: no account, or the first row's.
account_found : Rows → Option (Option Account)
account_found res = if res.rows_count == 0 then some none else (do
  id ← res.get_number 0 1
  gmlevel ← res.get_number 0 2
  sessionkey ← res.get_string 0 3
  sha_pass_hash ← res.get_string 0 4
  v ← res.get_string 0 5
  s ← res.get_string 0 6
  expansion ← res.get_number 0 7
  some (
      some (record {
        id = id;
        gmlevel = gmlevel;
        sessionkey = sessionkey;
        sha_pass_hash = sha_pass_hash;
        v = v;
        s = s;
        expansion = expansion;
      })))
