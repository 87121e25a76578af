-- ===== src/RealmDatabase.antt =====
-- realmd/Realm_Database.cpp: the statements that the connection prepares, and the requests that RealmDB
-- enqueues. Freeing the texts, and who is told of a result, have no part here.
pub mod Requests
pub mod Prepared
use Prim.Native.String.{String}
use morfeusz.Base.{
  ℕ, ◌+◌, ◌^◌, ◌%◌, u32, Bool, List, [], ◌∷◌, reverse, take, Option, none, some, ◌>>=◌, get_elem?,
  set, replicate,
}
use morfeusz.Endian.{Host}
use morfeusz.Database.{Operation, new_request, add_uint8, add_uint32, add_uint64, add_string}
use morfeusz.Database.Sql.{codes, c_str, TaskPriority}

-- enum RealmdDatabaseStatements
pub data RealmStatement : Type 0 where
  realmd_db_set_s_v realmd_db_prune_bans realmd_db_set_inactive_bans realmd_db_update_account
        realmd_db_set_failed_logins :
      RealmStatement
  realmd_db_add_account_autoban realmd_db_add_ip_autoban realmd_db_check_ip_ban realmd_db_get_acct
        realmd_db_check_acct_ban :
      RealmStatement
  realmd_db_check_failed_login realmd_db_get_sessionkey realmd_db_get_pass_hash
        realmd_db_get_numchar realmd_db_ping realmd_db_get_realmlist :
      RealmStatement
  realmd_db_fix_sv : RealmStatement

unfoldable pub index : RealmStatement → ℕ
index RealmStatement.realmd_db_set_s_v = 0
index RealmStatement.realmd_db_prune_bans = 1
index RealmStatement.realmd_db_set_inactive_bans = 2
index RealmStatement.realmd_db_update_account = 3
index RealmStatement.realmd_db_set_failed_logins = 4
index RealmStatement.realmd_db_add_account_autoban = 5
index RealmStatement.realmd_db_add_ip_autoban = 6
index RealmStatement.realmd_db_check_ip_ban = 7
index RealmStatement.realmd_db_get_acct = 8
index RealmStatement.realmd_db_check_acct_ban = 9
index RealmStatement.realmd_db_check_failed_login = 10
index RealmStatement.realmd_db_get_sessionkey = 11
index RealmStatement.realmd_db_get_pass_hash = 12
index RealmStatement.realmd_db_get_numchar = 13
index RealmStatement.realmd_db_ping = 14
index RealmStatement.realmd_db_get_realmlist = 15
index RealmStatement.realmd_db_fix_sv = 16

-- The ADD_STMT lines, in order.
unfoldable pub realm_sql : List (RealmStatement × String)
realm_sql =
    (
      RealmStatement.realmd_db_set_inactive_bans,
      "UPDATE account_banned SET active = 0 WHERE unbandate<=UNIX_TIMESTAMP() AND unbandate<>bandate",
    )
    ∷ (
      RealmStatement.realmd_db_prune_bans,
      "DELETE FROM ip_banned WHERE unbandate<=UNIX_TIMESTAMP() AND unbandate<>bandate",
    )
    ∷ (RealmStatement.realmd_db_check_ip_ban, "SELECT * FROM ip_banned WHERE ip = ?")
    ∷ (
      RealmStatement.realmd_db_check_acct_ban,
      "SELECT UPPER(a.sha_pass_hash) , a.id, a.locked, a.last_ip, ab.active, a.failed_logins FROM account AS a LEFT OUTER JOIN account_banned AS ab ON ab.id = a.id AND ab.active = 1 WHERE a.username = ?",
    )
    ∷ (RealmStatement.realmd_db_set_s_v, "UPDATE account SET v = ?, s = ? WHERE username = ?")
    ∷ (
      RealmStatement.realmd_db_update_account,
      "UPDATE account SET sessionkey = ?, last_ip = ?, last_login = NOW(), locale = ?, failed_logins = 0 WHERE username = ?",
    )
    ∷ (
      RealmStatement.realmd_db_get_realmlist,
      "SELECT id, name, icon, color, timezone, allowedSecurityLevel, population, gamebuild FROM realmlist WHERE color <> 3 ORDER BY id",
    )
    ∷ (
      RealmStatement.realmd_db_get_numchar,
      "SELECT realmid, numchars FROM realmcharacters WHERE acctid = ?",
    )
    ∷ (
      RealmStatement.realmd_db_update_account,
      "UPDATE account SET sessionkey = ?, last_ip = ?, last_login = NOW(), locale = ?, failed_logins = 0 WHERE username = ?",
    )
    ∷ (RealmStatement.realmd_db_fix_sv, "UPDATE account set s ='', v ='' where username = ?")
    ∷ (
      RealmStatement.realmd_db_set_failed_logins,
      "UPDATE account set failed_logins = failed_logins + 1 where id = ?",
    )
    ∷ (
      RealmStatement.realmd_db_add_ip_autoban,
      "INSERT INTO ip_banned VALUES (?,UNIX_TIMESTAMP(),UNIX_TIMESTAMP()+ ?,'Morpheus realmd','Failed login autoban')",
    )
    ∷ (
      RealmStatement.realmd_db_add_account_autoban,
      "INSERT INTO account_banned VALUES (? ,UNIX_TIMESTAMP(),UNIX_TIMESTAMP()+ ?,'Morpheus realmd','Failed login autoban',1)",
    )
    ∷ (RealmStatement.realmd_db_get_sessionkey, "SELECT sessionkey FROM account WHERE username = ?")
    ∷ []

-- `prepare` is the connection's prepareStatement: `none` is an exception, upon which the program ends.
module _ {S : Type 0} (prepare : List ℕ → Option S) where
  unfoldable pub add_stmts :
      List (RealmStatement × String) → List (Option S) → Option (List (Option S))
  unfolding index
  add_stmts [] holder = some holder
  add_stmts ((x, y) ∷ rest) holder =
      prepare (codes y) >>= λ s. add_stmts rest (set holder (index x) (some s))

  -- What stays `none` is a null pointer.
  unfoldable pub open_database : Option (List (Option S))
  unfolding add_stmts realm_sql
  open_database = add_stmts realm_sql (replicate 17 none)

pub record Enqueued : Type 0 where
  pub operation : Operation
  pub priority : TaskPriority

abbrev enqueue : Operation → Option Enqueued
enqueue op = some (record { operation = op; priority = TaskPriority.priority_low })

module _ (host : Host) where
  unfoldable pub ban_account : ℕ → Option Enqueued
  unfolding index add_uint32
  ban_account id = do
    op ←
        add_uint32 host 1 (u32 id)
          (new_request (index RealmStatement.realmd_db_add_account_autoban) none)
    op ← add_uint32 host 2 600 op
    enqueue op

  unfoldable pub ban_ip : List ℕ → Option Enqueued
  unfolding index add_uint32 add_string c_str
  ban_ip ip = do
    op ← add_string 1 (c_str ip) (new_request (index RealmStatement.realmd_db_add_ip_autoban) none)
    op ← add_uint32 host 2 600 op
    enqueue op

  unfoldable pub increment_failed_logins : ℕ → Option Enqueued
  unfolding index add_uint64
  increment_failed_logins id = do
    op ← add_uint64 host 1 id (new_request (index RealmStatement.realmd_db_set_failed_logins) none)
    enqueue op

  -- `hex_of` is BN_bn2hex of BN_bin2bn.
  unfoldable pub update_account : (List ℕ → List ℕ) → List ℕ → List ℕ → List ℕ → Option Enqueued
  unfolding index add_string add_uint8 c_str
  update_account hex_of login ip key = do
    op ←
        add_string 1 (c_str (hex_of (reverse (take 40 key))))
          (new_request (index RealmStatement.realmd_db_update_account) none)
    op ← add_string 2 (c_str ip) op
    op ← add_uint8 host 3 0 op
    op ← add_string 4 (c_str login) op
    enqueue op

  unfoldable pub get_char_amount : ℕ → ℕ → Option Enqueued
  unfolding index add_uint32
  get_char_amount future id = do
    op ←
        add_uint32 host 1 (u32 id)
          (new_request (index RealmStatement.realmd_db_get_numchar) (some future))
    enqueue op

unfoldable pub fix_sv : List ℕ → Option Enqueued
unfolding index add_string c_str
fix_sv login = do
  op ← add_string 1 (c_str login) (new_request (index RealmStatement.realmd_db_fix_sv) none)
  some (record { operation = op; priority = TaskPriority.priority_high })

unfoldable pub set_sv : List ℕ → List ℕ → List ℕ → Option Enqueued
unfolding index add_string c_str
set_sv login s_str v_str = do
  op ← add_string 1 (c_str v_str) (new_request (index RealmStatement.realmd_db_set_s_v) none)
  op ← add_string 2 (c_str s_str) op
  op ← add_string 3 (c_str login) op
  enqueue op

unfoldable pub check_ip_ban : ℕ → List ℕ → Option Enqueued
unfolding index add_string c_str
check_ip_ban future ip = do
  op ←
      add_string 1 (c_str ip)
        (new_request (index RealmStatement.realmd_db_check_ip_ban) (some future))
  enqueue op

unfoldable pub get_account : ℕ → List ℕ → Option Enqueued
unfolding index add_string c_str
get_account future login = do
  op ←
      add_string 1 (c_str login)
        (new_request (index RealmStatement.realmd_db_check_acct_ban) (some future))
  enqueue op

unfoldable pub get_sessionkey : ℕ → List ℕ → Option Enqueued
unfolding index add_string c_str
get_sessionkey future login = do
  op ←
      add_string 1 (c_str login)
        (new_request (index RealmStatement.realmd_db_get_sessionkey) (some future))
  enqueue op

unfoldable pub get_realmlist : ℕ → Option Enqueued
unfolding index
get_realmlist future =
    enqueue (new_request (index RealmStatement.realmd_db_get_realmlist) (some future))

-- realmd/Realm_Timer.h, the timer's two requests.
unfoldable pub prune_bans : Option Enqueued
unfolding index
prune_bans = enqueue (new_request (index RealmStatement.realmd_db_prune_bans) none)

unfoldable pub set_inactive_bans : Option Enqueued
unfolding index
set_inactive_bans = enqueue (new_request (index RealmStatement.realmd_db_set_inactive_bans) none)
