-- ===== src/MySqlConnection/Url.antt =====
-- database/MySQL/MySQLConnection.cpp: what connect strings the connection takes.
use morfeusz.Base.{ℕ, ◌≡◌, refl, List, [], ◌∷◌, ◌++◌, none, some, arith, if◌then◌else◌, ◌&&◌}
use morfeusz.Text.{str_split}
use morfeusz.Text.Joined.{given, keep, str_split-keep, str_split_last}
use morfeusz.Text.Split.{IsFree}
use morfeusz.MySqlConnection.{Params, params_of, parse_url}

abbrev pub semicolon : List ℕ
semicolon = 0x3B ∷ []

abbrev pub joined : Params → List ℕ
joined p = p.host ++ 0x3B ∷ (p.port ++ 0x3B ∷ (p.user ++ 0x3B ∷ (p.password ++ 0x3B ∷ p.schema)))

abbrev pub AreFree : Params → Type 0
AreFree p =
    IsFree semicolon p.host
    × IsFree semicolon p.port
    × IsFree semicolon p.user
    × IsFree semicolon p.password
    × IsFree semicolon p.schema

str_split-joined :
    (p : Params)
    → AreFree p
    → str_split (joined p) semicolon
      ≡ keep p.host (keep p.port (keep p.user (keep p.password (keep p.schema []))))
str_split-joined p free =
    rw
      (
        str_split-keep 0x3B p.host
            (p.port ++ 0x3B ∷ (p.user ++ 0x3B ∷ (p.password ++ 0x3B ∷ p.schema))) free.0,
        str_split-keep 0x3B p.port (p.user ++ 0x3B ∷ (p.password ++ 0x3B ∷ p.schema)) free.1,
        str_split-keep 0x3B p.user (p.password ++ 0x3B ∷ p.schema) free.2,
        str_split-keep 0x3B p.password p.schema free.3,
        str_split_last 0x3B p.schema free.4,
      )
      refl

parts :
    (p : Params)
    → params_of (keep p.host (keep p.port (keep p.user (keep p.password (keep p.schema []))))) ≡ (
        if given p.host && given p.port && given p.user && given p.password && given p.schema
        then some p
        else none)
unfolding params_of
parts p = ground arith

-- A connect string of five parts without semicolons is taken apart again exactly if no part is empty;
-- with an empty part, such as the password, it is refused.
pub parse_url-joined :
    (p : Params)
    → AreFree p
    → parse_url (joined p) ≡ (
        if given p.host && given p.port && given p.user && given p.password && given p.schema
        then some p
        else none)
unfolding parse_url
parse_url-joined p free = rw (parse_url, str_split-joined p free) (parts p)
