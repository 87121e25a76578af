-- ===== src/ObjectMgr.antt =====
-- game/ObjectMgr.h and ObjectMgr.cpp: where new characters start, and their numbers. `none` is an
-- access past an array, or the value of a place that nothing has been written to.
use morfeusz.Base.{
  ℕ, ◌+◌, ◌-◌, ◌*◌, ◌||◌, List, Option, none, some, ◌>>=◌, ltb, ◌==◌, if◌then◌else◌, u32, set,
  get_elem?, replicate,
}
use morfeusz.ProxyDatabase.{Rows}

-- Floats are the numbers of their four bytes.
pub record PlayerCreateInfo : Type 0 where
  pub map_id : ℕ
  pub zone_id : ℕ
  pub position_x : ℕ
  pub position_y : ℕ
  pub position_z : ℕ

-- enum DBCRaces and DBCClasses
abbrev pub race_max : ℕ
race_max = 12

abbrev pub class_max : ℕ
class_max = 12

-- The rows of playerCreateInfo one after the other, and max_guids[GUID_CHAR].
pub record ObjectMgr : Type 0 where
  pub player_create_info : List (Option PlayerCreateInfo)
  pub max_guid_char : Option ℕ

abbrev pub new_object_mgr : ObjectMgr
new_object_mgr = record { player_create_info = replicate 144 none; max_guid_char = none }

-- Where [race - 1][pclass - 1] is.
unfoldable pub place : ℕ → ℕ → Option ℕ
place race pclass =
    if (race == 0 || ltb race_max race) || (pclass == 0 || ltb class_max pclass)
    then none
    else some ((race - 1) * class_max + (pclass - 1))

unfoldable pub set_player_create_info : ℕ → ℕ → PlayerCreateInfo → ObjectMgr → Option ObjectMgr
unfolding place
set_player_create_info race pclass info m = do
  i ← place race pclass
  some (record m { player_create_info = set m.player_create_info i (some info) })

unfoldable pub get_player_create_info : ℕ → ℕ → ObjectMgr → Option PlayerCreateInfo
unfolding place
get_player_create_info race pclass m = do
  i ← place race pclass
  cell ← get_elem? m.player_create_info i
  cell

-- `res` is what enqueue_synch_query gives; MAX(guid) of no rows is NULL, which reads as 0.
init_max_guids : Rows → ObjectMgr → Option ObjectMgr
init_max_guids res m = do
  guid ← res.get_number 0 1
  some (record m { max_guid_char = some (u32 (guid + 1)) })

unfoldable pub get_max_guid : ObjectMgr → Option (ℕ × ObjectMgr)
get_max_guid m = do
  guid ← m.max_guid_char
  some (guid, record m { max_guid_char = some (u32 (guid + 1)) })
