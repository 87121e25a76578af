-- ===== src/RealmDatabase/Requests.antt =====
-- realmd/Realm_Database.cpp: every request has exactly the values that its statement's text has places
-- for, and is executed with them.
use morfeusz.Base.{
  ℕ, ◌<◌, ◌^◌, ◌≡◌, refl, u32, List, [], ◌∷◌, reverse, take, Option, none, some, ◌>>=◌, arith,
}
use morfeusz.Endian.{Host}
use morfeusz.Database.{new_request}
use morfeusz.Database.Params.{Given, Widths, add, add_all}
use morfeusz.Database.Sql.{c_str, TaskPriority}
use morfeusz.RealmDatabase.{
  RealmStatement, index, Enqueued, ban_account, ban_ip, increment_failed_logins, update_account,
  get_char_amount, fix_sv, set_sv, check_ip_ban, get_account, get_sessionkey, get_realmlist,
  prune_bans, set_inactive_bans,
}

-- The calls of RealmDB and of the timer, with their arguments; a future is a number.
pub data RealmCall : Type 0 where
  call_ban_account : ℕ → RealmCall
  call_ban_ip : List ℕ → RealmCall
  call_increment_failed_logins : ℕ → RealmCall
  call_update_account : List ℕ → List ℕ → List ℕ → RealmCall
  call_get_char_amount : ℕ → ℕ → RealmCall
  call_fix_sv : List ℕ → RealmCall
  call_set_sv : List ℕ → List ℕ → List ℕ → RealmCall
  call_check_ip_ban call_get_account call_get_sessionkey : ℕ → List ℕ → RealmCall
  call_get_realmlist : ℕ → RealmCall
  call_prune_bans call_set_inactive_bans : RealmCall

unfoldable pub request : Host → (List ℕ → List ℕ) → RealmCall → Option Enqueued
request host hex_of (RealmCall.call_ban_account id) = ban_account host id
request host hex_of (RealmCall.call_ban_ip ip) = ban_ip host ip
request host hex_of (RealmCall.call_increment_failed_logins id) = increment_failed_logins host id
request host hex_of (RealmCall.call_update_account login ip key) =
    update_account host hex_of login ip key
request host hex_of (RealmCall.call_get_char_amount future id) = get_char_amount host future id
request host hex_of (RealmCall.call_fix_sv login) = fix_sv login
request host hex_of (RealmCall.call_set_sv login s v) = set_sv login s v
request host hex_of (RealmCall.call_check_ip_ban future ip) = check_ip_ban future ip
request host hex_of (RealmCall.call_get_account future login) = get_account future login
request host hex_of (RealmCall.call_get_sessionkey future login) = get_sessionkey future login
request host hex_of (RealmCall.call_get_realmlist future) = get_realmlist future
request host hex_of RealmCall.call_prune_bans = prune_bans
request host hex_of RealmCall.call_set_inactive_bans = set_inactive_bans

-- What each is to execute.
unfoldable pub statement_of : RealmCall → RealmStatement
statement_of (RealmCall.call_ban_account id) = RealmStatement.realmd_db_add_account_autoban
statement_of (RealmCall.call_ban_ip ip) = RealmStatement.realmd_db_add_ip_autoban
statement_of (RealmCall.call_increment_failed_logins id) =
    RealmStatement.realmd_db_set_failed_logins
statement_of (RealmCall.call_update_account login ip key) = RealmStatement.realmd_db_update_account
statement_of (RealmCall.call_get_char_amount future id) = RealmStatement.realmd_db_get_numchar
statement_of (RealmCall.call_fix_sv login) = RealmStatement.realmd_db_fix_sv
statement_of (RealmCall.call_set_sv login s v) = RealmStatement.realmd_db_set_s_v
statement_of (RealmCall.call_check_ip_ban future ip) = RealmStatement.realmd_db_check_ip_ban
statement_of (RealmCall.call_get_account future login) = RealmStatement.realmd_db_check_acct_ban
statement_of (RealmCall.call_get_sessionkey future login) = RealmStatement.realmd_db_get_sessionkey
statement_of (RealmCall.call_get_realmlist future) = RealmStatement.realmd_db_get_realmlist
statement_of RealmCall.call_prune_bans = RealmStatement.realmd_db_prune_bans
statement_of RealmCall.call_set_inactive_bans = RealmStatement.realmd_db_set_inactive_bans

unfoldable pub future_of : RealmCall → Option ℕ
future_of (RealmCall.call_get_char_amount future id) = some future
future_of (RealmCall.call_check_ip_ban future ip) = some future
future_of (RealmCall.call_get_account future login) = some future
future_of (RealmCall.call_get_sessionkey future login) = some future
future_of (RealmCall.call_get_realmlist future) = some future
future_of _ = none

unfoldable pub values : (List ℕ → List ℕ) → RealmCall → List Given
values hex_of (RealmCall.call_ban_account id) = Given.uint32 (u32 id) ∷ Given.uint32 600 ∷ []
values hex_of (RealmCall.call_ban_ip ip) = Given.string (c_str ip) ∷ Given.uint32 600 ∷ []
values hex_of (RealmCall.call_increment_failed_logins id) = Given.uint64 id ∷ []
values hex_of (RealmCall.call_update_account login ip key) =
    Given.string (c_str (hex_of (reverse (take 40 key))))
    ∷ Given.string (c_str ip)
    ∷ Given.uint8 0
    ∷ Given.string (c_str login)
    ∷ []
values hex_of (RealmCall.call_get_char_amount future id) = Given.uint32 (u32 id) ∷ []
values hex_of (RealmCall.call_fix_sv login) = Given.string (c_str login) ∷ []
values hex_of (RealmCall.call_set_sv login s v) =
    Given.string (c_str v) ∷ Given.string (c_str s) ∷ Given.string (c_str login) ∷ []
values hex_of (RealmCall.call_check_ip_ban future ip) = Given.string (c_str ip) ∷ []
values hex_of (RealmCall.call_get_account future login) = Given.string (c_str login) ∷ []
values hex_of (RealmCall.call_get_sessionkey future login) = Given.string (c_str login) ∷ []
values hex_of _ = []

-- An account's number has 64 bits.
abbrev pub IsSized : RealmCall → Type 0
IsSized (RealmCall.call_increment_failed_logins id) = id < 2 ^ 64
IsSized _ = Unit {0}

unfoldable pub priority_of : RealmCall → TaskPriority
priority_of (RealmCall.call_fix_sv login) = TaskPriority.priority_high
priority_of _ = TaskPriority.priority_low

pub values-Widths :
    (hex_of : List ℕ → List ℕ) (call : RealmCall) → IsSized call → Widths (values hex_of call)
unfolding values
values-Widths hex_of (RealmCall.call_ban_account id) h = (omega arith, (omega arith, tt))
values-Widths hex_of (RealmCall.call_ban_ip ip) h = (tt, (omega arith, tt))
values-Widths hex_of (RealmCall.call_increment_failed_logins id) h = (h, tt)
values-Widths hex_of (RealmCall.call_update_account login ip key) h =
    (tt, (tt, (omega arith, (tt, tt))))
values-Widths hex_of (RealmCall.call_get_char_amount future id) h = (omega arith, tt)
values-Widths hex_of (RealmCall.call_fix_sv login) h = (tt, tt)
values-Widths hex_of (RealmCall.call_set_sv login s v) h = (tt, (tt, (tt, tt)))
values-Widths hex_of (RealmCall.call_check_ip_ban future ip) h = (tt, tt)
values-Widths hex_of (RealmCall.call_get_account future login) h = (tt, tt)
values-Widths hex_of (RealmCall.call_get_sessionkey future login) h = (tt, tt)
values-Widths hex_of (RealmCall.call_get_realmlist future) h = tt
values-Widths hex_of RealmCall.call_prune_bans h = tt
values-Widths hex_of RealmCall.call_set_inactive_bans h = tt

pub request-add_all :
    (host : Host) (hex_of : List ℕ → List ℕ) (call : RealmCall)
    → request host hex_of call ≡ (
        add_all host 1
          (values hex_of call)
          (new_request (index (statement_of call)) (future_of call))
        >>= λ op. some (record { operation = op; priority = priority_of call }))
unfolding request values statement_of future_of priority_of add_all add ban_account ban_ip
    increment_failed_logins update_account get_char_amount fix_sv set_sv check_ip_ban get_account
    get_sessionkey get_realmlist prune_bans set_inactive_bans
request-add_all host hex_of (RealmCall.call_ban_account id) = refl
request-add_all host hex_of (RealmCall.call_ban_ip ip) = refl
request-add_all host hex_of (RealmCall.call_increment_failed_logins id) = refl
request-add_all host hex_of (RealmCall.call_update_account login ip key) = refl
request-add_all host hex_of (RealmCall.call_get_char_amount future id) = refl
request-add_all host hex_of (RealmCall.call_fix_sv login) = refl
request-add_all host hex_of (RealmCall.call_set_sv login s v) = refl
request-add_all host hex_of (RealmCall.call_check_ip_ban future ip) = refl
request-add_all host hex_of (RealmCall.call_get_account future login) = refl
request-add_all host hex_of (RealmCall.call_get_sessionkey future login) = refl
request-add_all host hex_of (RealmCall.call_get_realmlist future) = refl
request-add_all host hex_of RealmCall.call_prune_bans = refl
request-add_all host hex_of RealmCall.call_set_inactive_bans = refl
