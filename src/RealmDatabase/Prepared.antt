-- ===== src/RealmDatabase/Prepared.antt =====
-- realmd/Realm_Database.cpp: what the connection prepares, and that it serves every request.
use Prim.Native.String.{String}
use morfeusz.Base.{
  ℕ, ◌≤◌, ◌≡◌, refl, ap, ◌∙◌, map, bind_assoc, List, [], ◌∷◌, Option, none, some, ◌>>=◌, arith,
  length, get_elem?, set, drop_all, append-nil, ◌==◌, if◌then◌else◌,
}
use morfeusz.Endian.{Host}
use morfeusz.Database.{new_request}
use morfeusz.Database.Driver.{Driver, IsDriver, Value}
use morfeusz.Database.Execute.{Database, run_statement, execute}
use morfeusz.Database.Params.{add_all}
use morfeusz.Database.Delivery.{WidensTo64, wanted, execute-add_all}
use morfeusz.Database.Sql.{codes, placeholders}
use morfeusz.RealmDatabase.{RealmStatement, index, realm_sql, open_database}
use morfeusz.RealmDatabase.Requests.{
  RealmCall, request, statement_of, future_of, values, IsSized, priority_of, values-Widths,
  request-add_all,
}

-- The text that a statement is prepared from: the last of the lines that name it.
unfoldable pub sql_of_loop : Option String → List (RealmStatement × String) → ℕ → Option String
sql_of_loop found [] i = found
sql_of_loop found ((x, y) ∷ rest) i = sql_of_loop (if index x == i then some y else found) rest i

unfoldable pub sql_of : RealmStatement → Option String
unfolding sql_of_loop index realm_sql
sql_of x = sql_of_loop none realm_sql (index x)

abbrev all_statements : List RealmStatement
all_statements =
    RealmStatement.realmd_db_set_s_v ∷ RealmStatement.realmd_db_prune_bans
    ∷ RealmStatement.realmd_db_set_inactive_bans ∷ RealmStatement.realmd_db_update_account
    ∷ RealmStatement.realmd_db_set_failed_logins ∷ RealmStatement.realmd_db_add_account_autoban
    ∷ RealmStatement.realmd_db_add_ip_autoban ∷ RealmStatement.realmd_db_check_ip_ban
    ∷ RealmStatement.realmd_db_get_acct ∷ RealmStatement.realmd_db_check_acct_ban
    ∷ RealmStatement.realmd_db_check_failed_login ∷ RealmStatement.realmd_db_get_sessionkey
    ∷ RealmStatement.realmd_db_get_pass_hash ∷ RealmStatement.realmd_db_get_numchar
    ∷ RealmStatement.realmd_db_ping ∷ RealmStatement.realmd_db_get_realmlist
    ∷ RealmStatement.realmd_db_fix_sv ∷ []

-- Where no line names a statement, a null pointer.
unfoldable pub holder_of : {S : Type 0} → (List ℕ → S) → List (Option S)
unfolding sql_of
holder_of prepare = map (λ x. sql_of x >>= λ y. some (prepare (codes y))) all_statements

-- If nothing fails, the connection prepares each statement from the last line that names it and puts
-- it at its own index; the others are null pointers.
open_database-holder_of :
    {S : Type 0} (prepare : List ℕ → S) (x : RealmStatement)
    → (open_database (λ text. some (prepare text)) ≡ some (holder_of prepare))
      × (get_elem? (holder_of prepare) (index x)
          ≡ some (sql_of x >>= λ y. some (prepare (codes y))))
unfolding open_database sql_of holder_of
open_database-holder_of prepare RealmStatement.realmd_db_set_s_v = (refl, refl)
open_database-holder_of prepare RealmStatement.realmd_db_prune_bans = (refl, refl)
open_database-holder_of prepare RealmStatement.realmd_db_set_inactive_bans = (refl, refl)
open_database-holder_of prepare RealmStatement.realmd_db_update_account = (refl, refl)
open_database-holder_of prepare RealmStatement.realmd_db_set_failed_logins = (refl, refl)
open_database-holder_of prepare RealmStatement.realmd_db_add_account_autoban = (refl, refl)
open_database-holder_of prepare RealmStatement.realmd_db_add_ip_autoban = (refl, refl)
open_database-holder_of prepare RealmStatement.realmd_db_check_ip_ban = (refl, refl)
open_database-holder_of prepare RealmStatement.realmd_db_get_acct = (refl, refl)
open_database-holder_of prepare RealmStatement.realmd_db_check_acct_ban = (refl, refl)
open_database-holder_of prepare RealmStatement.realmd_db_check_failed_login = (refl, refl)
open_database-holder_of prepare RealmStatement.realmd_db_get_sessionkey = (refl, refl)
open_database-holder_of prepare RealmStatement.realmd_db_get_pass_hash = (refl, refl)
open_database-holder_of prepare RealmStatement.realmd_db_get_numchar = (refl, refl)
open_database-holder_of prepare RealmStatement.realmd_db_ping = (refl, refl)
open_database-holder_of prepare RealmStatement.realmd_db_get_realmlist = (refl, refl)
open_database-holder_of prepare RealmStatement.realmd_db_fix_sv = (refl, refl)

values-placeholders :
    (hex_of : List ℕ → List ℕ) (call : RealmCall)
    → (y : String) × (sql_of (statement_of call) ≡ some y)
      × (length (values hex_of call) ≡ placeholders (codes y))
unfolding values statement_of sql_of placeholders
values-placeholders hex_of (RealmCall.call_ban_account id) = (_, refl, refl)
values-placeholders hex_of (RealmCall.call_ban_ip ip) = (_, refl, refl)
values-placeholders hex_of (RealmCall.call_increment_failed_logins id) = (_, refl, refl)
values-placeholders hex_of (RealmCall.call_update_account login ip key) = (_, refl, refl)
values-placeholders hex_of (RealmCall.call_get_char_amount future id) = (_, refl, refl)
values-placeholders hex_of (RealmCall.call_fix_sv login) = (_, refl, refl)
values-placeholders hex_of (RealmCall.call_set_sv login s v) = (_, refl, refl)
values-placeholders hex_of (RealmCall.call_check_ip_ban future ip) = (_, refl, refl)
values-placeholders hex_of (RealmCall.call_get_account future login) = (_, refl, refl)
values-placeholders hex_of (RealmCall.call_get_sessionkey future login) = (_, refl, refl)
values-placeholders hex_of (RealmCall.call_get_realmlist future) = (_, refl, refl)
values-placeholders hex_of RealmCall.call_prune_bans = (_, refl, refl)
values-placeholders hex_of RealmCall.call_set_inactive_bans = (_, refl, refl)

values_short : (hex_of : List ℕ → List ℕ) (call : RealmCall) → length (values hex_of call) ≤ 4
unfolding values
values_short hex_of (RealmCall.call_ban_account id) = omega arith
values_short hex_of (RealmCall.call_ban_ip ip) = omega arith
values_short hex_of (RealmCall.call_increment_failed_logins id) = omega arith
values_short hex_of (RealmCall.call_update_account login ip key) = omega arith
values_short hex_of (RealmCall.call_get_char_amount future id) = omega arith
values_short hex_of (RealmCall.call_fix_sv login) = omega arith
values_short hex_of (RealmCall.call_set_sv login s v) = omega arith
values_short hex_of (RealmCall.call_check_ip_ban future ip) = omega arith
values_short hex_of (RealmCall.call_get_account future login) = omega arith
values_short hex_of (RealmCall.call_get_sessionkey future login) = omega arith
values_short hex_of (RealmCall.call_get_realmlist future) = omega arith
values_short hex_of RealmCall.call_prune_bans = omega arith
values_short hex_of RealmCall.call_set_inactive_bans = omega arith

-- The holder has a statement for each text, which takes as many values as the text has places for.
abbrev pub IsPrepared : {S W R : Type 0} → (S → List (Option Value)) → Database S W R → Type 0
IsPrepared {S} bound db =
    (x : RealmStatement) (y : String)
    → sql_of x ≡ some y
    → (s : S) × (get_elem? db.statements (index x) ≡ some s)
      × (length (bound s) ≡ placeholders (codes y))

module _ (host : Host) (double_of : ℕ → ℕ) (widens : WidensTo64 double_of) {S W R : Type 0}
    (d : Driver S W R) (bound : S → List (Option Value)) (law : IsDriver d bound) where
  -- Every request of RealmDB, executed, gives its statement the values that it stands for, in order and
  -- none missing, on a connection whose statements have as many places as their texts have `?`.
  pub execute-request :
      (hex_of : List ℕ → List ℕ) (call : RealmCall) (db : Database S W R)
      → IsSized call
      → IsPrepared bound db
      → (filled : S) × (bound filled
          ≡ wanted host double_of widens d bound law (values hex_of call))
        × ((request host hex_of call >>= λ e. execute host double_of d e.operation db)
            ≡ some (
              (run_statement d (future_of call) filled db).0,
              record (run_statement d (future_of call) filled db).1.1 {
                statements =
                    set db.statements
                      (index (statement_of call))
                      (run_statement d (future_of call) filled db).1.0;
              },
            ))
  execute-request hex_of call db sized prepared =
      let (y, text, many) = values-placeholders hex_of call in
      let (s, at, places) = prepared (statement_of call) y text in
      let short = values_short hex_of call in
      let (filled, holds, ran) =
        execute-add_all host double_of widens d bound law (values hex_of call)
          (index (statement_of call)) (future_of call) db s (values-Widths hex_of call sized) at
          (omega arith) (omega arith) in
      (
        filled,
        holds ∙ rw (drop_all (length (values hex_of call)) (bound s) (omega arith)) (append-nil _),
        ap (λ m. m >>= λ e. execute host double_of d e.operation db)
              (request-add_all host hex_of call)
            ∙ bind_assoc
                (add_all host 1 (values hex_of call)
                  (new_request (index (statement_of call)) (future_of call)))
                (λ op. some (record { operation = op; priority = priority_of call }))
                (λ e. execute host double_of d e.operation db)
            ∙ ran,
      )
