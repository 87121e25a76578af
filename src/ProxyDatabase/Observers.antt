-- ===== src/ProxyDatabase/Observers.antt =====
-- proxyd/Proxy_Database.cpp: getCharsObsv and loadPlayerCreateInfoObsv, on the result set of the future.
pub mod StartPlaces
use morfeusz.Base.{
  ℕ, zero, suc, ◌+◌, ◌%◌, ◌^◌, List, [], ◌∷◌, Option, none, some, ◌>>=◌, ◌==◌, if◌then◌else◌,
}
use morfeusz.ObjectMgr.{PlayerCreateInfo, ObjectMgr, set_player_create_info}
use morfeusz.ProxyDatabase.{Rows, Character}

unfoldable pub read_character : Rows → ℕ → Option Character
read_character res row = do
  guid ← res.get_number row 1
  name ← res.get_string row 2
  race ← res.get_number row 3
  pclass ← res.get_number row 4
  gender ← res.get_number row 5
  level ← res.get_number row 6
  bytes ← res.get_number row 7
  bytes2 ← res.get_number row 8
  x ← res.get_number row 9
  y ← res.get_number row 10
  z ← res.get_number row 11
  map ← res.get_number row 12
  zone ← res.get_number row 13
  some (record {
    guid = guid;
    race = race;
    pclass = pclass;
    gender = gender;
    bytes = bytes;
    bytes2 = bytes2;
    level = level;
    name = name;
    x = x;
    y = y;
    z = z;
    map = map;
    zone = zone;
  })

-- while (res->next()): the rows that are left, from `row` on.
unfoldable pub read_characters : Rows → ℕ → ℕ → Option (List Character)
unfolding read_character
read_characters res zero row = some []
read_characters res (suc left) row = do
  ch ← read_character res row
  chars ← read_characters res left (row + 1)
  some (ch ∷ chars)

-- getCharsObsv::update: callback.call(false), or set_characters and callback.call(true).
unfoldable pub characters_found : Rows → Option (Option (List Character))
unfolding read_characters
characters_found res =
    if res.rows_count == 0
    then some none
    else (do chars ← read_characters res res.rows_count 0; some (some chars))

-- What a row of player_createinfo says.
pub record Start : Type 0 where
  pub race : ℕ
  pub pclass : ℕ
  pub info : PlayerCreateInfo

unfoldable pub read_start : Rows → ℕ → Option Start
read_start res row = do
  race ← res.get_number row 1
  pclass ← res.get_number row 2
  map_id ← res.get_number row 3
  zone_id ← res.get_number row 4
  x ← res.get_number row 5
  y ← res.get_number row 6
  z ← res.get_number row 7
  some (record {
    race = race;
    pclass = pclass;
    info = record {
      map_id = map_id;
      zone_id = zone_id;
      position_x = x;
      position_y = y;
      position_z = z;
    };
  })

unfoldable pub load_starts : Rows → ℕ → ℕ → ObjectMgr → Option ObjectMgr
unfolding read_start set_player_create_info
load_starts res zero row m = some m
load_starts res (suc left) row m = do
  start ← read_start res row
  m ← set_player_create_info start.race start.pclass start.info m
  load_starts res left (row + 1) m

-- loadPlayerCreateInfoObsv::update: what the callback is given, and the manager.
unfoldable pub create_info_loaded : Rows → ObjectMgr → Option (ℕ × ObjectMgr)
unfolding load_starts
create_info_loaded res m =
    if res.rows_count == 0
    then some (0, m)
    else (do m ← load_starts res res.rows_count 0 m; some (res.rows_count % 2 ^ 8, m))
