-- ===== src/Dbc/Races.antt =====
-- common/dbc/DBC_Store.cpp: loading the table of races from a file.
use morfeusz.Base.{
  ℕ, zero, suc, ◌+◌, ◌*◌, ◌^◌, ◌≤◌, ◌<◌, ◌≡◌, refl, sym, ap, ◌∙◌, List, [], ◌∷◌, ◌++◌, append_assoc,
  arith, length, length-append, drop, get_or, u32, true, false, ◌==◌, if◌then◌else◌,
}
use morfeusz.Endian.{Host}
use morfeusz.RealmService.Map.{map_set}
use morfeusz.Dbc.{ok, DbcFile, text_at, read_uint32, opened, new_dbc_file}
use morfeusz.Dbc.Store.{
  ChrRacesEntry, DbcStore, skip_fields, read_chr_race, load_entries, load_chr_races_dbc,
}
use morfeusz.Dbc.Cursor.{
  AllU32, drop-append_more, encode, length-encode, field, read_uint32-field, skip_fields-field,
  read_names-field,
}

-- A record of 69 fields, whose 16 names begin inside `body`.
pub record IsRace (body r : List ℕ) : Type 0 where
  pub fields : length r ≡ 69
  pub numbers : AllU32 r
  pub named : (i : ℕ) → i < 16 → get_or r (14 + i) 0 ≤ length body

-- Every record of the file is such a one.
abbrev pub AllRaces : List ℕ → List (List ℕ) → Type 0
AllRaces body [] = Unit {0}
AllRaces body (r ∷ rows) = IsRace body r × AllRaces body rows

unfoldable pub race_of : List ℕ → ChrRacesEntry
race_of r = record {
  race_id = get_or r 0 0;
  faction_id = get_or r 2 0;
  model_m = get_or r 4 0;
  model_f = get_or r 5 0;
  team_id = get_or r 8 0;
  startmovie = get_or r 13 0;
  addon = get_or r 68 0;
}

-- The table after the records were added in their order.
unfoldable pub add_races : List (List ℕ) → List (ℕ × ChrRacesEntry) → List (ℕ × ChrRacesEntry)
add_races [] table = table
add_races (r ∷ rows) table = add_races rows (map_set (get_or r 0 0) (race_of r) table)

unfoldable pub encode_rows : List (List ℕ) → List ℕ
encode_rows [] = []
encode_rows (r ∷ rows) = encode r ++ encode_rows rows

-- A text that begins before the block's last byte has an end.
text_at-drop :
    (body : List ℕ) (n : ℕ)
    → n ≤ length body
    → (s : List ℕ) × (text_at (drop n (body ++ 0 ∷ [])) ≡ ok s)
unfolding text_at
text_at-drop [] zero h = ([], refl)
text_at-drop [] (suc n) h = absurd (omega arith)
text_at-drop (c ∷ body) zero h =
    let (s, e) = text_at-drop body 0 (omega arith) in
    rw e (elim (c == 0) as (λ b. (x : List ℕ) × ((if b then ok [] else ok (c ∷ s)) ≡ ok x)) [
      | true ↦ ([], refl)
      | false ↦ (c ∷ s, refl)
    ])
text_at-drop (c ∷ body) (suc n) h = text_at-drop body n (omega arith)

module _ (f : DbcFile) (pre r post body : List ℕ) (is : f.bytes ≡ pre ++ (encode r ++ post))
    (four : f.field_size ≡ 4) (texts : 1 < f.string_block_size) (race : IsRace body r)
    (names : (i : ℕ)
      → i ≤ length body
      → (s : List ℕ) × (text_at (drop (u32 (f.data_size + i)) f.bytes) ≡ ok s)) where
  -- A value that is read after fields are skipped.
  read_after :
      (n k : ℕ)
      → n + k < 69
      → read_uint32 Host.little (skip_fields n (field f pre k))
        ≡ ok (get_or r (n + k) 0, field f pre (suc (n + k)))
  read_after n k h =
      rw (skip_fields-field f pre r post is (race.numbers) four n k)
        (read_uint32-field f pre r post is (race.numbers) (n + k) (omega (arith, race.fields)))

  read_chr_race_lem :
      read_chr_race Host.little (field f pre 0) ≡ ok ((get_or r 0 0, race_of r), field f pre 69)
  unfolding read_chr_race race_of
  read_chr_race_lem =
      rw
        (
          read_uint32-field f pre r post is race.numbers 0 (omega (arith, race.fields)),
          read_after 1 1 (omega arith),
          read_after 1 3 (omega arith),
          read_uint32-field f pre r post is race.numbers 5 (omega (arith, race.fields)),
          read_after 2 6 (omega arith),
          read_after 4 9 (omega arith),
          read_names-field f pre r post is (race.numbers) texts 16 14 (omega (arith, race.fields))
              (λ i l. names _ (race.named i l)),
          read_after 38 30 (omega arith),
        )
        refl

module _ (f : DbcFile) (body tail : List ℕ) (four : f.field_size ≡ 4)
    (texts : 1 < f.string_block_size)
    (names : (i : ℕ)
      → i ≤ length body
      → (s : List ℕ) × (text_at (drop (u32 (f.data_size + i)) f.bytes) ≡ ok s)) where
  load_entries-races :
      (rows : List (List ℕ)) (pre : List ℕ) (table : List (ℕ × ChrRacesEntry))
      → f.bytes ≡ pre ++ (encode_rows rows ++ tail)
      → AllRaces body rows
      → load_entries (read_chr_race Host.little) (length rows) table (field f pre 0)
        ≡ ok (add_races rows table)
  unfolding load_entries encode_rows add_races
  load_entries-races [] pre table is h = refl
  load_entries-races (r ∷ rows) pre table is h =
      let here : f.bytes ≡ pre ++ (encode r ++ (encode_rows rows ++ tail)) =
        is ∙ ap (λ bytes. pre ++ bytes) (append_assoc (encode r) (encode_rows rows) tail) in
      let next : length pre + 4 * 69 ≡ length (pre ++ encode r) + 4 * 0 =
        omega (arith, length-append pre (encode r), length-encode r, h.0.fields) in
      rw (read_chr_race_lem f pre r (encode_rows rows ++ tail) body here four texts h.0 names, next)
        (load_entries-races rows (pre ++ encode r) (map_set (get_or r 0 0) (race_of r) table)
          (here ∙ sym (append_assoc pre (encode r) (encode_rows rows ++ tail))) h.1)

-- The five numbers before the records.
abbrev pub header : List (List ℕ) → List ℕ → List ℕ
header rows body = 0x43424457 ∷ length rows ∷ 69 ∷ 276 ∷ suc (length body) ∷ []

-- A file of races: its numbers, the records, and the block of texts.
unfoldable pub race_file : List (List ℕ) → List ℕ → List ℕ
race_file rows body = encode (header rows body) ++ (encode_rows rows ++ (body ++ 0 ∷ []))

-- The file after its header was read.
abbrev pub headed : List (List ℕ) → List ℕ → DbcFile
headed rows body = record {
  bytes = race_file rows body;
  pos = 20;
  records = length rows;
  fields = 69;
  record_size = 276;
  field_size = 4;
  data_size = u32 (length rows * 276 + 20);
  string_block_size = suc (length body);
}

length-encode_rows :
    (rows : List (List ℕ)) (body : List ℕ)
    → AllRaces body rows
    → length (encode_rows rows) ≡ 276 * length rows
unfolding encode_rows
length-encode_rows [] body h = refl
length-encode_rows (r ∷ rows) body h = omega (
  arith,
  length-append (encode r) (encode_rows rows),
  length-encode r,
  h.0.fields,
  length-encode_rows rows body h.1,
)

module _ (rows : List (List ℕ)) (body : List ℕ) (races : AllRaces body rows)
    (small : 276 * length rows + length body + 21 < 2 ^ 32) where
  header_fits : AllU32 (header rows body)
  header_fits = (omega arith, (omega arith, (omega arith, (omega arith, (omega arith, tt)))))

  new_dbc_file-race_file : new_dbc_file Host.little (race_file rows body) ≡ ok (headed rows body)
  unfolding new_dbc_file race_file
  new_dbc_file-race_file =
      let post = encode_rows rows ++ (body ++ 0 ∷ []) in
      let read =
        read_uint32-field (opened (race_file rows body)) [] (header rows body) post refl
          header_fits in
      rw
        (
          read 0 (omega arith),
          read 1 (omega arith),
          read 2 (omega arith),
          read 3 (omega arith),
          read 4 (omega arith),
        )
        refl

  -- Every text of the block is in the file.
  text_at-race_file :
      (i : ℕ)
      → i ≤ length body
      → (s : List ℕ) × (text_at
            (drop (u32 (u32 (length rows * 276 + 20) + i)) (race_file rows body))
          ≡ ok s)
  unfolding race_file
  text_at-race_file i h =
      let pre = encode (header rows body) ++ encode_rows rows in
      let at : u32 (u32 (length rows * 276 + 20) + i) ≡ length pre + i = omega (
        arith,
        length-append (encode (header rows body)) (encode_rows rows),
        length-encode (header rows body),
        length-encode_rows rows body races,
      ) in
      rw
        (
          at,
          sym (append_assoc (encode (header rows body)) (encode_rows rows) (body ++ 0 ∷ [])),
          drop-append_more pre (body ++ 0 ∷ []) i,
        )
        (text_at-drop body i h)

  -- A file of races that the client's tools would write is loaded whole on a little-endian machine:
  -- every record sets the entry of its race, in the order of the file, if every record has 69 numbers
  -- of 32 bits, its names begin inside the block of texts, that block is not empty, and the file is
  -- shorter than 2 ^ 32 bytes.
  pub load_chr_races_dbc-race_file :
      (store : DbcStore)
      → 0 < length body
      → load_chr_races_dbc Host.little (race_file rows body) store
        ≡ ok (record store { chr_races = add_races rows store.chr_races })
  unfolding load_chr_races_dbc race_file encode morfeusz.Base.le_bytes
  load_chr_races_dbc-race_file store some_text =
      let loaded =
        load_entries-races (headed rows body) body (body ++ 0 ∷ []) refl (omega arith)
          text_at-race_file rows (encode (header rows body)) store.chr_races refl races in
      rw (new_dbc_file-race_file, loaded) refl
