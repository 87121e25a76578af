-- ===== src/MySqlStatement/Contract.antt =====
-- database/MySQL/MySQLPreparedStatement.cpp keeps what PreparedStatement.h promises: the server reads
-- in a parameter's buffer the value that was set, its integers as signed.
use morfeusz.Base.{
  ℕ, zero, suc, ◌+◌, ◌-◌, ◌^◌, ◌≤◌, ◌<◌, ◌≡◌, refl, ap, ◌∙◌, ◌⊎◌, inl, inr, true, false, List, [],
  ◌∷◌, ◌++◌, map, Option, none, some, ◌>>=◌, arith, length, take, take_all, set, get_or, replicate,
  length-map, take-append_length, if◌then◌else◌,
}
use morfeusz.Endian.{Host, store, load, length-store, load-store}
use morfeusz.Database.Driver.{Param, IsDriver, Value, signed, value_of, Fits}
use morfeusz.MySqlStatement.{
  FieldType, Bind, Statement, Client, zeroed, at_param, set_param, mysql_driver, clear_parameters,
  clear_bind, check_validity, set_value,
}

-- What the client library documents of a bound buffer: a number of the type's width, which is signed
-- where is_unsigned is 0, or as many bytes as *length says.
unfoldable pub value_in : Host → Bind → Option Value
value_in host b = elim b.buffer [
  | none ↦ none
  | some bytes ↦ elim b.buffer_type [
    | FieldType.decimal ↦ none
    | FieldType.long ↦ some (Value.long (signed 32 (load host (take 4 bytes))))
    | FieldType.longlong ↦ some (Value.longlong (signed 64 (load host (take 8 bytes))))
    | FieldType.double ↦ some (Value.double (load host (take 8 bytes)))
    | FieldType.var_string ↦ b.value_length >>= λ n. some (Value.text (take n bytes))
  ]
]

unfoldable pub bound : Host → Statement → List (Option Value)
unfolding value_in
bound host s = map (value_in host) s.bind

map-set :
    {A B : Type 0} (f : A → B) (xs : List A) (i : ℕ) (v : A)
    → map f (set xs i v) ≡ set (map f xs) i (f v)
map-set f [] i v = refl
map-set f (x ∷ xs) zero v = refl
map-set f (x ∷ xs) (suc i) v = ap (◌∷◌ (f x)) (map-set f xs i v)

module _ (host : Host) where
  at_param-in :
      (i : ℕ) (f : Bind → Bind) (v : Value) (s : Statement)
      → ((b : Bind) → value_in host (f b) ≡ some v)
      → 0 < i
      → i ≤ length (bound host s)
      → (r : Statement) × (at_param i f s ≡ some r)
        × (bound host r ≡ set (bound host s) (i - 1) (some v))
  unfolding at_param bound
  at_param-in i f v s reads h k =
      let inside : i ≤ length s.bind = omega (arith, length-map (value_in host) s.bind) in
      let valid : check_validity i s ≡ true = ground arith in
      let old = get_or s.bind (i - 1) zeroed in
      let places = map (value_in host) s.bind in
      (
        record s { params_set = set s.params_set (i - 1) true; bind = set s.bind (i - 1) (f old) },
        rw valid refl,
        map-set (value_in host) s.bind (i - 1) (f old) ∙ ap (λ o. set places (i - 1) o) (reads old),
      )

  at_param-out :
      (i : ℕ) (f : Bind → Bind) (s : Statement)
      → (i ≡ 0) ⊎ (length (bound host s) < i)
      → at_param i f s ≡ none
  unfolding at_param bound
  at_param-out i f s (inl e) = rw e refl
  at_param-out i f s (inr h) =
      let inside = length-map (value_in host) s.bind in
      let valid : check_validity i s ≡ false = ground (arith, inside) in rw valid refl

  load_take-store : (n v : ℕ) → v < 256 ^ n → load host (take n (store host n v)) ≡ v
  load_take-store n v h =
      rw (take_all n (store host n v) (omega (arith, length-store host n v)))
        (load-store host n v h)

  clear-bound :
      (bs : List Bind)
      → map (value_in host) (map clear_bind bs) ≡ replicate (length (map (value_in host) bs)) none
  unfolding clear_bind value_in
  clear-bound [] = refl
  clear-bound (b ∷ bs) = ap (◌∷◌ none) (clear-bound bs)

  -- What a setter does to its parameter's place.
  entered : Param → Bind → Bind
  unfolding set_value
  entered (Param.bool b) param =
      set_value (store host 4 (if b then 1 else 0)) (record param { buffer_type = FieldType.long })
  entered (Param.uint32 n) param =
      set_value (store host 4 n) (record param { buffer_type = FieldType.long })
  entered (Param.uint64 n) param =
      set_value (store host 8 n) (record param { buffer_type = FieldType.longlong })
  entered (Param.double n) param =
      set_value (store host 8 n) (record param { buffer_type = FieldType.double })
  entered (Param.string t) param = record param {
    buffer_type = FieldType.var_string;
    buffer = some (t ++ 0 ∷ []);
    buffer_length = length t + 1;
    value_length = some (length t);
  }

  value_in-entered :
      (p : Param) (b : Bind) → Fits p → value_in host (entered p b) ≡ some (value_of p)
  unfolding value_in entered value_of signed
  value_in-entered (Param.bool true) b f =
      ap (λ n. some (Value.long (signed 32 n))) (load_take-store 4 1 (omega arith))
  value_in-entered (Param.bool false) b f =
      ap (λ n. some (Value.long (signed 32 n))) (load_take-store 4 0 (omega arith))
  value_in-entered (Param.uint32 n) b f =
      ap (λ m. some (Value.long (signed 32 m))) (load_take-store 4 n (omega arith))
  value_in-entered (Param.uint64 n) b f =
      ap (λ m. some (Value.longlong (signed 64 m))) (load_take-store 8 n (omega arith))
  value_in-entered (Param.double n) b f =
      ap (λ m. some (Value.double m)) (load_take-store 8 n (omega arith))
  value_in-entered (Param.string t) b f =
      ap (λ s. some (Value.text s)) (take-append_length t (0 ∷ []))

  module _ {W R : Type 0} (client : Client W R) where
    set_param-entered :
        (i : ℕ) (p : Param) (s : Statement) → set_param host client i p s ≡ at_param i (entered p) s
    unfolding set_param entered
    set_param-entered i (Param.bool b) s = refl
    set_param-entered i (Param.uint32 n) s = refl
    set_param-entered i (Param.uint64 n) s = refl
    set_param-entered i (Param.double n) s = refl
    set_param-entered i (Param.string t) s = refl

    -- The statement for MySQL keeps the interface's promises, with integers taken as signed: a value
    -- that is set is what the server reads in its place, a setUint32 from 2 ^ 31 on and a setUint64 from
    -- 2 ^ 63 on being read as negative; an index out of range is an exception; clearing empties all.
    pub mysql_driver-IsDriver : IsDriver (mysql_driver host client) (bound host)
    unfolding mysql_driver clear_parameters bound
    mysql_driver-IsDriver = record {
      set-in = λ i p s f h k.
          rw (set_param-entered i p s)
            (at_param-in i (entered p) (value_of p) s (λ b. value_in-entered p b f) h k);
      set-out = λ i p s h. set_param-entered i p s ∙ at_param-out i (entered p) s h;
      bound-clear = λ s. clear-bound s.bind;
    }
