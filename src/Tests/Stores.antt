-- ===== src/Tests/Stores.antt =====
-- A database of seventeen statements behind the driver for MySQL, and a server that counts.
use morfeusz.Base.{
  ℕ, ◌+◌, ◌/◌, ◌<◌, ◌^◌, ◌≡◌, refl, ap, ◌⊎◌, Bool, true, false, List, [], ◌∷◌, ◌++◌, map, none,
  some, ◌>>=◌, arith, length, set, drop, if◌then◌else◌, eq_of_some,
}
use morfeusz.Endian.{Host}
use morfeusz.Database.{Operation, new_request}
use morfeusz.Database.Driver.{Driver, IsDriver}
use morfeusz.Database.Execute.{Outcome, Database, run_statement, execute}
use morfeusz.Database.Transaction.{Connection, Transaction, call_requests, call, destroy}
use morfeusz.Database.Worker.{Request, svc}
use morfeusz.Database.Params.{Given, add_all}
use morfeusz.Database.Delivery.{wanted, execute-add_all}
use morfeusz.Database.Outcomes.{Answered}
use morfeusz.Database.Atomicity.{IsTransactional, call_lem, destroy-call}
use morfeusz.Database.Liveness.{svc-request}
use morfeusz.Database.Sql.{codes, placeholders}
use morfeusz.MySqlStatement.{
  Statement, Client, new_statement, do_query, execute_query, mysql_driver,
}
use morfeusz.MySqlStatement.Contract.{bound, value_in, mysql_driver-IsDriver}
use morfeusz.RealmDatabase.{RealmStatement, index}
use morfeusz.RealmDatabase.Requests.{RealmCall, request, statement_of, future_of, values}
use morfeusz.RealmDatabase.Prepared.{sql_of, IsPrepared, execute-request}

-- How many statements are committed, and how many are done.
record Server : Type 0 where
  committed : ℕ
  current : ℕ
  auto : Bool

-- The library's handle is the number of places.
abbrev client : Client Server ℕ
client = record {
  param_count = λ handle. handle;
  run = λ handle binds w. (
    true,
    record w { current = w.current + 1; committed = if w.auto then w.current + 1 else w.committed },
  );
  result_set = λ handle w. (some 7, w);
  field_count = λ handle w. 1;
  affected_rows = λ handle w. 1;
}

abbrev driver : Driver Statement Server ℕ
driver = mysql_driver Host.little client

abbrev connection : Connection Server
connection = record {
  get_auto_commit = λ w. w.auto;
  set_auto_commit = λ b w. record w { auto = b; committed = if b then w.current else w.committed };
  commit = λ w. record w { committed = w.current };
  rollback = λ w. record w { current = w.committed };
}

transactional : IsTransactional driver connection (λ w. w.committed) (λ w. w.current)
unfolding mysql_driver do_query execute_query
transactional = record {
  get-set = λ b w. refl;
  committed-set_false = λ w. refl;
  execute-mode = λ s w. ground arith;
  query-mode = λ s w. ground arith;
  committed-execute = λ s w h. ground arith;
  committed-query = λ s w h. ground arith;
  committed-commit = λ w. refl;
  committed-rollback = λ w. refl;
  current-rollback = λ w. refl;
}

abbrev idle : Server
idle = record { committed = 4; current = 4; auto = true }

abbrev db : Database Statement Server ℕ
db = record {
  statements =
      map (new_statement client)
        (3 ∷ 0 ∷ 0 ∷ 4 ∷ 1 ∷ 2 ∷ 2 ∷ 1 ∷ 0 ∷ 1 ∷ 0 ∷ 1 ∷ 0 ∷ 1 ∷ 0 ∷ 0 ∷ 1 ∷ []);
  server = idle;
  answers = [];
}

-- No conversion of a float.
abbrev as_is : ℕ → ℕ
as_is n = n

widens : (n : ℕ) → n < 2 ^ 32 → as_is n < 2 ^ 64
widens n h = omega arith

mysql_driver-IsDriver_example : IsDriver driver (bound Host.little)
mysql_driver-IsDriver_example = mysql_driver-IsDriver Host.little client

abbrev law : IsDriver driver (bound Host.little)
law = mysql_driver-IsDriver Host.little client

abbrev two_values : List Given
two_values = Given.uint32 5 ∷ Given.string (104 ∷ 105 ∷ []) ∷ []

abbrev fresh : ℕ → Statement
fresh = new_statement client

execute-add_all_example :
    (filled : Statement) × (bound Host.little filled
      ≡ wanted Host.little as_is widens driver (bound Host.little) law two_values
        ++ drop 2 (bound Host.little (fresh 2)))
    × ((add_all Host.little 1 two_values (new_request 5 (some 1)) >>= λ op.
          execute Host.little as_is driver op db)
        ≡ some (
          (run_statement driver (some 1) filled db).0,
          record (run_statement driver (some 1) filled db).1.1 {
            statements = set db.statements 5 (run_statement driver (some 1) filled db).1.0;
          },
        ))
unfolding bound value_in new_statement
execute-add_all_example =
    execute-add_all Host.little as_is widens driver (bound Host.little) law two_values 5 (some 1) db
      (fresh 2) (omega arith, (tt, tt)) refl (omega arith) (omega arith)

abbrev creation : Transaction
creation = record {
  autocommit_state = false;
  requests = new_request 1 none ∷ new_request 2 none ∷ [];
}

call_lem_example :
    (left : List Operation) × (last : Database Statement Server ℕ) × (after : Database Statement
      Server ℕ)
    × (((call Host.little as_is driver connection creation db
            ≡ some
                (Outcome.done, (record creation { autocommit_state = true; requests = [] }, after)))
          × (call_requests Host.little as_is driver creation.requests
                (record db { server = connection.set_auto_commit false idle })
              ≡ some (Outcome.done, ([], last)))
          × (after.server.committed ≡ last.server.current))
        ⊎ ((call Host.little as_is driver connection creation db
              ≡ some (
                Outcome.failed,
                (record creation { autocommit_state = true; requests = left }, after),
              ))
            × (after.server.committed ≡ 4)
            × (after.server.current ≡ 4)))
call_lem_example =
    call_lem Host.little as_is driver connection (λ w. w.committed) (λ w. w.current) transactional
      creation db (omega arith, (omega arith, tt))

destroy-call_example :
    (o : Outcome) × (ended : Transaction) × (after : Database Statement Server ℕ) × (call
        Host.little as_is driver connection creation db
      ≡ some (o, (ended, after)))
    × (let (leaked, final) = destroy Host.little as_is driver connection ended after in
        (final.server.auto ≡ true) × (length leaked ≡ length ended.requests / 2))
destroy-call_example =
    destroy-call Host.little as_is driver connection (λ w. w.committed) (λ w. w.current)
      transactional creation db (omega arith, (omega arith, tt))

svc-request_example :
    (found : Database Statement Server ℕ) × (o : Outcome) × (left : Database Statement Server ℕ)
    × (final : Database Statement Server ℕ) × (more : List (ℕ × ℕ)) × (svc Host.little as_is driver
          connection
          (some (Request.transaction creation) ∷ [])
          db
        ≡ some (false, found))
    × (execute Host.little as_is driver (new_request 15 (some 9)) found ≡ some (o, left))
    × Answered o (some 9) found.answers left.answers
    × (svc Host.little as_is driver connection
          (some (Request.transaction creation)
            ∷ some (Request.request (new_request 15 (some 9)))
            ∷ some (Request.request (new_request 2 none))
            ∷ none
            ∷ [])
          db
        ≡ some (true, final))
    × (final.answers ≡ left.answers ++ more)
svc-request_example =
    svc-request Host.little as_is driver connection (Request.transaction creation ∷ [])
      (Request.request (new_request 2 none) ∷ []) (new_request 15 (some 9)) [] db
      ((omega arith, (omega arith, tt)), (omega arith, (omega arith, tt)))

db-IsPrepared : IsPrepared (bound Host.little) db
unfolding sql_of bound value_in new_statement index placeholders
db-IsPrepared RealmStatement.realmd_db_set_s_v y h =
    (fresh 3, refl, ap (λ t. placeholders (codes t)) (eq_of_some h))
db-IsPrepared RealmStatement.realmd_db_prune_bans y h =
    (fresh 0, refl, ap (λ t. placeholders (codes t)) (eq_of_some h))
db-IsPrepared RealmStatement.realmd_db_set_inactive_bans y h =
    (fresh 0, refl, ap (λ t. placeholders (codes t)) (eq_of_some h))
db-IsPrepared RealmStatement.realmd_db_update_account y h =
    (fresh 4, refl, ap (λ t. placeholders (codes t)) (eq_of_some h))
db-IsPrepared RealmStatement.realmd_db_set_failed_logins y h =
    (fresh 1, refl, ap (λ t. placeholders (codes t)) (eq_of_some h))
db-IsPrepared RealmStatement.realmd_db_add_account_autoban y h =
    (fresh 2, refl, ap (λ t. placeholders (codes t)) (eq_of_some h))
db-IsPrepared RealmStatement.realmd_db_add_ip_autoban y h =
    (fresh 2, refl, ap (λ t. placeholders (codes t)) (eq_of_some h))
db-IsPrepared RealmStatement.realmd_db_check_ip_ban y h =
    (fresh 1, refl, ap (λ t. placeholders (codes t)) (eq_of_some h))
db-IsPrepared RealmStatement.realmd_db_get_acct y h = absurd cc
db-IsPrepared RealmStatement.realmd_db_check_acct_ban y h =
    (fresh 1, refl, ap (λ t. placeholders (codes t)) (eq_of_some h))
db-IsPrepared RealmStatement.realmd_db_check_failed_login y h = absurd cc
db-IsPrepared RealmStatement.realmd_db_get_sessionkey y h =
    (fresh 1, refl, ap (λ t. placeholders (codes t)) (eq_of_some h))
db-IsPrepared RealmStatement.realmd_db_get_pass_hash y h = absurd cc
db-IsPrepared RealmStatement.realmd_db_get_numchar y h =
    (fresh 1, refl, ap (λ t. placeholders (codes t)) (eq_of_some h))
db-IsPrepared RealmStatement.realmd_db_ping y h = absurd cc
db-IsPrepared RealmStatement.realmd_db_get_realmlist y h =
    (fresh 0, refl, ap (λ t. placeholders (codes t)) (eq_of_some h))
db-IsPrepared RealmStatement.realmd_db_fix_sv y h =
    (fresh 1, refl, ap (λ t. placeholders (codes t)) (eq_of_some h))

abbrev banning : RealmCall
banning = RealmCall.call_ban_ip (49 ∷ 46 ∷ 50 ∷ [])

execute-request_example :
    (filled : Statement) × (bound Host.little filled
      ≡ wanted Host.little as_is widens driver (bound Host.little) law (values (λ t. t) banning))
    × ((request Host.little (λ t. t) banning >>= λ e.
          execute Host.little as_is driver e.operation db)
        ≡ some (
          (run_statement driver (future_of banning) filled db).0,
          record (run_statement driver (future_of banning) filled db).1.1 {
            statements =
                set db.statements
                  (index (statement_of banning))
                  (run_statement driver (future_of banning) filled db).1.0;
          },
        ))
execute-request_example =
    execute-request Host.little as_is widens driver (bound Host.little) law (λ t. t) banning db tt
      db-IsPrepared
