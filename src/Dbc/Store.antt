-- ===== src/Dbc/Store.antt =====
-- common/dbc/DBC_Store.h and DBC_Store.cpp: the tables that are loaded. A table that an exception leaves
-- half filled is not kept here: the proxy does not start then. The names of races and classes are
-- pointers into texts that are gone when the reading is done, and are left out.
use morfeusz.Base.{
  ℕ, zero, suc, Bool, List, [], ◌∷◌, ◌++◌, Option, none, some, ◌==◌, if◌then◌else◌, get_or, length,
}
use morfeusz.Endian.{Host}
use morfeusz.RealmService.Map.{map_set}
use morfeusz.Dbc.{Result, ok, ◌>>=◌, DbcFile, new_dbc_file, read_uint32, read_string, skip_field}

pub record ItemEntry : Type 0 where
  pub display_id : ℕ
  pub inventory_type : ℕ
  pub sheath : ℕ

pub record SpellItemEnchantmentEntry : Type 0 where
  pub type : List ℕ
  pub amount : List ℕ
  pub spell_id : List ℕ
  pub desc : List ℕ
  pub aura_id : ℕ
  pub slot : ℕ
  pub gem_id : ℕ
  pub enchantment_condition : ℕ

pub record ChrRacesEntry : Type 0 where
  pub race_id : ℕ
  pub faction_id : ℕ
  pub model_m : ℕ
  pub model_f : ℕ
  pub team_id : ℕ
  pub startmovie : ℕ
  pub addon : ℕ

pub record ChrClassesEntry : Type 0 where
  pub class_id : ℕ
  pub powertype : ℕ
  pub spellfamily : ℕ

pub record DbcStore : Type 0 where
  pub path : List ℕ
  pub items : List (ℕ × ItemEntry)
  pub spell_item_enchantments : List (ℕ × SpellItemEnchantmentEntry)
  pub chr_races : List (ℕ × ChrRacesEntry)
  pub chr_classes : List (ℕ × ChrClassesEntry)

-- The path with a `/` at its end.
with_slash : List ℕ → List ℕ
with_slash [] = []
with_slash (c ∷ path) =
    if get_or (c ∷ path) (length path) 0 == 0x2F then c ∷ path else c ∷ path ++ 0x2F ∷ []

-- `opens` is what opendir does; `none` is a DBC_DIR_Read_Exception.
open_store : (List ℕ → Bool) → List ℕ → DbcStore → Option DbcStore
unfolding with_slash
open_store opens configured store =
    let path = with_slash configured in
    if opens path then some (record store { path = path }) else none

-- The loops over fields that are skipped, and over names.
unfoldable pub skip_fields : ℕ → DbcFile → DbcFile
unfolding skip_field
skip_fields zero dbc = dbc
skip_fields (suc n) dbc = skip_fields n (skip_field dbc)

module _ (host : Host) where
  unfoldable pub read_names : ℕ → DbcFile → Result DbcFile
  unfolding read_string
  read_names zero dbc = ok dbc
  read_names (suc n) dbc = do (name, dbc) ← read_string host dbc; read_names n dbc

  unfoldable pub read_three : DbcFile → Result (List ℕ × DbcFile)
  read_three dbc = do
    (a, dbc) ← read_uint32 host dbc
    (b, dbc) ← read_uint32 host dbc
    (c, dbc) ← read_uint32 host dbc
    ok (a ∷ b ∷ c ∷ [], dbc)

  unfoldable pub read_item : DbcFile → Result ((ℕ × ItemEntry) × DbcFile)
  read_item dbc = do
    (entry, dbc) ← read_uint32 host dbc
    (display_id, dbc) ← read_uint32 host dbc
    (inventory_type, dbc) ← read_uint32 host dbc
    (sheath, dbc) ← read_uint32 host dbc
    ok (
      (entry, record { display_id = display_id; inventory_type = inventory_type; sheath = sheath }),
      dbc,
    )

  unfoldable pub read_spell_item_enchantment :
      DbcFile → Result ((ℕ × SpellItemEnchantmentEntry) × DbcFile)
  unfolding read_three skip_fields
  read_spell_item_enchantment dbc = do
    (entry, dbc) ← read_uint32 host dbc
    (type, dbc) ← read_three dbc
    (amount, dbc) ← read_three dbc
    (spell_id, dbc) ← read_three (skip_fields 3 dbc)
    (desc, dbc) ← read_string host dbc
    (aura_id, dbc) ← read_uint32 host (skip_fields 16 dbc)
    (slot, dbc) ← read_uint32 host dbc
    (gem_id, dbc) ← read_uint32 host dbc
    (enchantment_condition, dbc) ← read_uint32 host dbc
    ok (
      (
        entry,
        record {
          type = type;
          amount = amount;
          spell_id = spell_id;
          desc = desc;
          aura_id = aura_id;
          slot = slot;
          gem_id = gem_id;
          enchantment_condition = enchantment_condition;
        },
      ),
      dbc,
    )

  unfoldable pub read_chr_race : DbcFile → Result ((ℕ × ChrRacesEntry) × DbcFile)
  read_chr_race dbc = do
    (entry, dbc) ← read_uint32 host dbc
    (faction_id, dbc) ← read_uint32 host (skip_fields 1 dbc)
    (model_m, dbc) ← read_uint32 host (skip_fields 1 dbc)
    (model_f, dbc) ← read_uint32 host dbc
    (team_id, dbc) ← read_uint32 host (skip_fields 2 dbc)
    (startmovie, dbc) ← read_uint32 host (skip_fields 4 dbc)
    dbc ← read_names 16 dbc
    (addon, dbc) ← read_uint32 host (skip_fields 38 dbc)
    ok (
      (
        entry,
        record {
          race_id = entry;
          faction_id = faction_id;
          model_m = model_m;
          model_f = model_f;
          team_id = team_id;
          startmovie = startmovie;
          addon = addon;
        },
      ),
      dbc,
    )

  unfoldable pub read_chr_class : DbcFile → Result ((ℕ × ChrClassesEntry) × DbcFile)
  read_chr_class dbc = do
    (entry, dbc) ← read_uint32 host dbc
    (powertype, dbc) ← read_uint32 host (skip_fields 1 dbc)
    dbc ← read_names 16 (skip_fields 1 dbc)
    (spellfamily, dbc) ← read_uint32 host (skip_fields 36 dbc)
    ok (
      (entry, record { class_id = entry; powertype = powertype; spellfamily = spellfamily }),
      skip_fields 1 dbc,
    )

-- The loop of each load: `read` is one turn, and an entry replaces one with its key.
unfoldable pub load_entries :
    {E : Type 0}
    → (DbcFile → Result ((ℕ × E) × DbcFile))
    → ℕ
    → List (ℕ × E)
    → DbcFile
    → Result (List (ℕ × E))
load_entries read zero table dbc = ok table
load_entries read (suc left) table dbc = do
  (entry, dbc) ← read dbc
  load_entries read left (map_set entry.0 entry.1 table) dbc

-- The files as the directory gives them.
module _ (host : Host) (contents : List ℕ) (store : DbcStore) where
  load_item_dbc : Result DbcStore
  unfolding load_entries read_item
  load_item_dbc = do
    dbc ← new_dbc_file host contents
    items ← load_entries (read_item host) dbc.records store.items dbc
    ok (record store { items = items })

  load_spell_item_enchantments_dbc : Result DbcStore
  unfolding load_entries read_spell_item_enchantment
  load_spell_item_enchantments_dbc = do
    dbc ← new_dbc_file host contents
    table ←
        load_entries (read_spell_item_enchantment host) dbc.records store.spell_item_enchantments
          dbc
    ok (record store { spell_item_enchantments = table })

  unfoldable pub load_chr_races_dbc : Result DbcStore
  unfolding load_entries
  load_chr_races_dbc = do
    dbc ← new_dbc_file host contents
    table ← load_entries (read_chr_race host) dbc.records store.chr_races dbc
    ok (record store { chr_races = table })

  load_chr_classes_dbc : Result DbcStore
  unfolding load_entries read_chr_class
  load_chr_classes_dbc = do
    dbc ← new_dbc_file host contents
    table ← load_entries (read_chr_class host) dbc.records store.chr_classes dbc
    ok (record store { chr_classes = table })
