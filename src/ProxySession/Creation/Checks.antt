-- ===== src/ProxySession/Creation/Checks.antt =====
-- proxyd/tbc/Proxy_Handlers.cpp, handle_cmsg_char_create: which characters pass the checks, and which
-- queries the checks enqueue.
use morfeusz.Base.{
  ℕ, ◌≤◌, ◌≡◌, ◌≢◌, ◌⊎◌, refl, sym, subst, inl, inr, true, false, List, [], ◌∷◌, ◌++◌, none, some,
  arith, ltb, ◌==◌, take, Bool-cases, Option-cases, Yields, Yields-weaken,
}
use morfeusz.Endian.{Host}
use morfeusz.Database.{Operation, new_request, add_string, add_uint32}
use morfeusz.Database.Worker.{Request}
use morfeusz.Database.Sql.{c_str}
use morfeusz.Dbc.Store.{ChrRacesEntry, ChrClassesEntry}
use morfeusz.RealmService.Map.{find}
use morfeusz.ProxyDatabase.{
  Rows, proxyd_db_get_plr_guid_from_name, proxyd_db_get_numchar, proxyd_db_get_char_count,
}
use morfeusz.ProxySession.{Session}
use morfeusz.ProxySession.Creation.{
  World, reaches, ask_synch, name_taken, count_reaches, check_limits, check_creation,
  char_create_success,
}
use morfeusz.Text.Names.{normalize_player_name, is_valid_name}

-- The session with operations enqueued, in order.
abbrev pub enqueued_all : List Operation → Session → Session
enqueued_all [] c = c
enqueued_all (op ∷ ops) c =
    enqueued_all ops (record c { enqueued = c.enqueued ++ Request.request op ∷ [] })

-- The queries of the checks: the character of the name, and the account's characters, everywhere and in
-- the realm.
pub record Queries (host : Host) (acct_id : ℕ) (name : List ℕ) : Type 0 where
  pub of_name : Operation
  pub of_account : Operation
  pub of_realm : Operation
  pub asks_name :
      add_string 1 (c_str name) (new_request proxyd_db_get_plr_guid_from_name none) ≡ some of_name
  pub asks_account :
      add_uint32 host 1 acct_id (new_request proxyd_db_get_numchar none) ≡ some of_account
  pub asks_realm :
      add_uint32 host 1 acct_id (new_request proxyd_db_get_char_count none) ≡ some of_realm

unfoldable pub queries : (host : Host) (acct_id : ℕ) (name : List ℕ) → Queries host acct_id name
unfolding add_string add_uint32
queries host acct_id name = record {
  of_name = _;
  of_account = _;
  of_realm = _;
  asks_name = refl;
  asks_account = refl;
  asks_realm = refl;
}

module _ (host : Host) (w : World) where
  module _ {acct_id : ℕ} {name : List ℕ} (q : Queries host acct_id name) where
    abbrev pub all_queries : List Operation
    all_queries = q.of_name ∷ q.of_account ∷ q.of_realm ∷ []

    -- The answers found the name free, the account below 50 characters and the realm's below 10.
    abbrev pub WithinLimits : Type 0
    WithinLimits =
        ((res : Rows) × (w.ask q.of_name ≡ some res) × ((res.rows_count == 0) ≡ true))
        × ((res : Rows) × (w.ask q.of_account ≡ some res) × (reaches 50 res ≡ some false))
        × ((res : Rows) × (w.ask q.of_realm ≡ some res) × (reaches 10 res ≡ some false))

  -- A code that refuses, with the first queries enqueued, or a name, with all of them.
  abbrev Judged :
      {acct_id : ℕ} {name : List ℕ}
      → Queries host acct_id name
      → Session
      → (ℕ ⊎ List ℕ) × Session
      → Type 0
  Judged q c (inl code, c1) =
      (code ≢ char_create_success) × ((n : ℕ) × (c1 ≡ enqueued_all (take n (all_queries q)) c))
  Judged {acct_id} {name} q c (inr n, c1) =
      (n ≡ name) × WithinLimits q × (c1 ≡ enqueued_all (all_queries q) c)

  check_limits_lem :
      (acct_id : ℕ) (name : List ℕ) (c : Session)
      → Yields (Judged (queries host acct_id name) c) (check_limits host w acct_id name c)
  unfolding check_limits name_taken count_reaches ask_synch queries
  check_limits_lem acct_id name c =
      let q = queries host acct_id name in
      elim (Option-cases (w.ask q.of_name)) [
        | inl e ↦ rw e tt
        | inr (res, e) ↦ rw e (elim (Bool-cases (res.rows_count == 0)) [
          | inr used ↦ rw used (ground arith, (1, refl))
          | inl free ↦ rw free (elim (Option-cases (w.ask q.of_account)) [
            | inl f ↦ rw f tt
            | inr (res2, f) ↦ rw f (elim (Option-cases (reaches 50 res2)) [
              | inl g ↦ rw g tt
              | inr (true, g) ↦ rw g (ground arith, (2, refl))
              | inr (false, g) ↦ rw g (elim (Option-cases (w.ask q.of_realm)) [
                | inl h ↦ rw h tt
                | inr (res3, h) ↦ rw h (elim (Option-cases (reaches 10 res3)) [
                  | inl k ↦ rw k tt
                  | inr (true, k) ↦ rw k (ground arith, (3, refl))
                  | inr (false, k) ↦ rw k (refl, ((res, e, free), (res2, f, g), (res3, h, k)), refl)
                ])
              ])
            ])
          ])
        ])
      ]

  -- The race and the class are in the tables, the account has the race's expansion, and the name, with
  -- its capital, is valid.
  abbrev pub Admissible :
      (c : Session) → List ℕ → ℕ → ℕ → (normal : List ℕ) → Queries host c.acct.id normal → Type 0
  Admissible c name race pclass normal q =
      (race_entry : ChrRacesEntry) × (find race w.store.chr_races ≡ some race_entry)
      × (race_entry.addon ≤ c.acct.expansion)
      × ((class_entry : ChrClassesEntry) × (find pclass w.store.chr_classes ≡ some class_entry))
      × (normalize_player_name w.toupper w.tolower name ≡ some normal)
      × (is_valid_name w.wide normal ≡ true)
      × WithinLimits q

  -- Nothing is enqueued, or the first queries for the name with its capital.
  abbrev pub Asked : Session → List ℕ → Session → Type 0
  Asked c name asked =
      (asked ≡ c)
      ⊎ ((normal : List ℕ) × (normalize_player_name w.toupper w.tolower name ≡ some normal)
          × ((q : Queries host c.acct.id normal) × (n : ℕ) × (asked
                ≡ enqueued_all (take n (all_queries q)) c)))

  -- A code that refuses, or a name, with the session that the checks leave.
  abbrev pub Verdict : Session → List ℕ → ℕ → ℕ → (ℕ ⊎ List ℕ) × Session → Type 0
  Verdict c name race pclass (inl code, asked) = (code ≢ char_create_success) × Asked c name asked
  Verdict c name race pclass (inr normal, asked) =
      (q : Queries host c.acct.id normal) × Admissible c name race pclass normal q
      × (asked ≡ enqueued_all (all_queries q) c)

  admissible :
      (c : Session) (name : List ℕ) (race pclass : ℕ) (normal : List ℕ) (race_entry : ChrRacesEntry)
      (class_entry : ChrClassesEntry)
      → find race w.store.chr_races ≡ some race_entry
      → race_entry.addon ≤ c.acct.expansion
      → find pclass w.store.chr_classes ≡ some class_entry
      → normalize_player_name w.toupper w.tolower name ≡ some normal
      → is_valid_name w.wide normal ≡ true
      → Yields (Verdict c name race pclass) (check_limits host w c.acct.id normal c)
  admissible c name race pclass normal race_entry class_entry e owned known f good =
      Yields-weaken (Judged (queries host c.acct.id normal) c) (Verdict c name race pclass)
        (check_limits host w c.acct.id normal c) judge (check_limits_lem c.acct.id normal c)
    where
      judge :
          (r : (ℕ ⊎ List ℕ) × Session)
          → Judged (queries host c.acct.id normal) c r
          → Verdict c name race pclass r
      judge (inl code, c1) (refused, (n, first)) =
          (refused, inr (normal, f, (queries host c.acct.id normal, n, first)))
      judge (inr n, c1) (same, within, asked) =
          subst (λ m. Verdict c name race pclass (inr m, c1)) (sym same)
            (
              queries host c.acct.id normal,
              (race_entry, e, owned, (class_entry, known), f, good, within),
              asked,
            )

  refused :
      (c : Session) (name : List ℕ) (race pclass code : ℕ)
      → code ≢ char_create_success
      → Verdict c name race pclass (inl code, c)
  refused c name race pclass code h = (h, inl refl)

  pub check_creation_lem :
      (name : List ℕ) (race pclass : ℕ) (c : Session)
      → Yields (Verdict c name race pclass) (check_creation host w name race pclass c)
  unfolding check_creation
  check_creation_lem name race pclass c = elim (Option-cases (find race w.store.chr_races)) [
    | inl e ↦ rw (Yields, check_creation, e) (refused c name race pclass _ (ground arith))
    | inr (race_entry, e) ↦
        rw (Yields, check_creation, e)
          (elim (Option-cases (find pclass w.store.chr_classes)) [
            | inl unknown ↦ rw unknown (refused c name race pclass _ (ground arith))
            | inr (class_entry, known) ↦
                rw known (elim (Bool-cases (ltb c.acct.expansion race_entry.addon)) [
                  | inl beyond ↦ rw beyond (refused c name race pclass _ (ground arith))
                  | inr owned ↦
                      rw owned
                        (elim (Option-cases (normalize_player_name w.toupper w.tolower name)) [
                          | inl f ↦ rw (Yields, f) (refused c name race pclass _ (ground arith))
                          | inr (normal, f) ↦
                              rw (Yields, f)
                                (elim (Bool-cases (is_valid_name w.wide normal)) [
                                  | inr bad ↦ rw bad (refused c name race pclass _ (ground arith))
                                  | inl good ↦ rw good (
                                      admissible c name race pclass normal race_entry class_entry e
                                        (ground arith) known f good)
                                ])
                        ])
                ])
          ])
  ]
