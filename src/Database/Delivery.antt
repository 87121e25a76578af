-- ===== src/Database/Delivery.antt =====
-- database/Database.cpp: from the add_ functions to the statement that is executed.
use morfeusz.Base.{
  ℕ, ◌+◌, ◌≤◌, ◌<◌, ◌^◌, ◌≡◌, refl, sym, ap, subst, ◌∙◌, List, [], ◌∷◌, ◌++◌, map, Option, some,
  ◌>>=◌, arith, length, get_elem?, set, drop, length-map,
}
use morfeusz.Endian.{Host}
use morfeusz.Database.{new_request}
use morfeusz.Database.Driver.{Driver, IsDriver, Value, value_of, Fits}
use morfeusz.Database.Execute.{Outcome, Database, run_statement, execute}
use morfeusz.Database.Params.{
  Given, Width, Widths, given_param, add_all, entry, param_of-entry, add_all-entries,
}
use morfeusz.Database.Binding.{AllFit, value_at, bind_loop-in, bind_loop-out}

-- The compiler's conversion of a float gives a double.
abbrev pub WidensTo64 : (ℕ → ℕ) → Type 0
WidensTo64 double_of = (n : ℕ) → n < 2 ^ 32 → double_of n < 2 ^ 64

module _ (host : Host) (double_of : ℕ → ℕ) (widens : WidensTo64 double_of) {S W R : Type 0}
    (d : Driver S W R) (bound : S → List (Option Value)) (law : IsDriver d bound) where
  abbrev pub wanted : List Given → List (Option Value)
  wanted gs = map (λ g. some (value_of (given_param double_of g))) gs

  given-Fits : (g : Given) → Width g → Fits (given_param double_of g)
  unfolding given_param
  given-Fits (Given.bool b) w = tt
  given-Fits (Given.uint8 n) w = omega arith
  given-Fits (Given.uint16 n) w = omega arith
  given-Fits (Given.uint32 n) w = w
  given-Fits (Given.uint64 n) w = w
  given-Fits (Given.float n) w = widens n w
  given-Fits (Given.string s) w = tt

  entries-AllFit : (gs : List Given) → Widths gs → AllFit host double_of (map (entry host) gs)
  entries-AllFit [] w = tt
  entries-AllFit (g ∷ gs) w = (
    subst Fits (sym (param_of-entry host double_of g w.0)) (given-Fits g w.0),
    entries-AllFit gs w.1,
  )

  entries-wanted :
      (gs : List Given)
      → Widths gs
      → map (value_at host double_of) (map (entry host) gs) ≡ wanted gs
  entries-wanted [] w = refl
  entries-wanted (g ∷ gs) w =
      rw (param_of-entry host double_of g w.0)
        (ap (◌∷◌ (some (value_of (given_param double_of g)))) (entries-wanted gs w.1))

  built :
      (gs : List Given) (statement : ℕ) (res : Option ℕ)
      → length gs ≤ 255
      → add_all host 1 gs (new_request statement res)
        ≡ some (record (new_request statement res) { statement_data = map (entry host) gs })
  built gs statement res h = add_all-entries host gs (new_request statement res) (omega arith)

  -- A request whose values are added for the indices 1, 2, ... is executed with them in the statement's
  -- first places, in that order, provided the values have their widths and the statement has at least
  -- as many places, and at most 255.
  pub execute-add_all :
      (gs : List Given) (statement : ℕ) (res : Option ℕ) (db : Database S W R) (s : S)
      → Widths gs
      → get_elem? db.statements statement ≡ some s
      → length gs ≤ length (bound s)
      → length (bound s) ≤ 255
      → (filled : S) × (bound filled ≡ wanted gs ++ drop (length gs) (bound s))
        × ((add_all host 1 gs (new_request statement res) >>= λ op. execute host double_of d op db)
            ≡ some (
              (run_statement d res filled db).0,
              record (run_statement d res filled db).1.1 {
                statements = set db.statements statement (run_statement d res filled db).1.0;
              },
            ))
  unfolding execute
  execute-add_all gs statement res db s w at h k =
      let many : 0 + length (map (entry host) gs) ≡ length gs =
        omega (arith, length-map (entry host) gs) in
      let bind =
        bind_loop-in host double_of d bound law 0 (map (entry host) gs) s (entries-AllFit gs w)
          (omega (arith, many)) k in
      (
        bind.0,
        bind.2 ∙ rw (many, entries-wanted gs w) refl,
        rw (built gs statement res (omega arith), at, bind.1) refl,
      )

  -- A request with more values than its statement has places, at most 255, fails: the server and the
  -- futures are left as they are.
  pub execute-add_too_many :
      (gs : List Given) (statement : ℕ) (res : Option ℕ) (db : Database S W R) (s : S)
      → Widths gs
      → get_elem? db.statements statement ≡ some s
      → length (bound s) < length gs
      → length gs ≤ 255
      → (filled : S) × ((add_all host 1 gs (new_request statement res) >>= λ op.
            execute host double_of d op db)
          ≡ some (Outcome.failed, record db { statements = set db.statements statement filled }))
  unfolding execute
  execute-add_too_many gs statement res db s w at h k =
      let many = length-map (entry host) gs in
      let bind =
        bind_loop-out host double_of d bound law 0 (map (entry host) gs) s (entries-AllFit gs w)
          (omega arith) (omega (arith, many)) (omega arith) in
      (bind.0, rw (built gs statement res k, at, bind.1) refl)
