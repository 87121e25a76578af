-- ===== src/ProxySession/Creation.antt =====
-- proxyd/tbc/Proxy_Handlers.cpp, handle_cmsg_char_create; game/Player.cpp, Player::create. `none` is a
-- failed ASSERT, an access past the manager's arrays, or a synchronous query that is never answered.
pub mod Checks
pub mod Admissible
use morfeusz.Base.{
  ℕ, ◌+◌, ◌-◌, ◌*◌, ◌^◌, Bool, true, false, not, ◌&&◌, ◌||◌, List, [], ◌∷◌, ◌++◌, map, Option, none,
  some, ◌>>=◌, ltb, leb, u32, bit_or, ◌==◌, if◌then◌else◌, length, ◌⊎◌, inl, inr,
}
use morfeusz.Endian.{Host}
use morfeusz.ByteBuffer.{ByteBuffer, append, read, read_string}
use morfeusz.Packet.{new_server_pkt, check_size}
use morfeusz.Database.{Operation, new_request, add_uint8, add_uint32, add_float, add_string}
use morfeusz.Database.Transaction.{Transaction}
use morfeusz.Database.Worker.{Request}
use morfeusz.Database.Sql.{c_str}
use morfeusz.ProxyDatabase.{
  Account, Rows, proxyd_db_get_plr_guid_from_name, proxyd_db_get_numchar, proxyd_db_get_char_count,
  proxyd_db_incr_numchar, proxyd_db_ins_char,
}
use morfeusz.Dbc.Store.{DbcStore}
use morfeusz.RealmService.Map.{find}
use morfeusz.ObjectMgr.{ObjectMgr, PlayerCreateInfo, get_player_create_info, get_max_guid}
use morfeusz.ProxySocket.{send}
use morfeusz.ProxySession.{Session}
use morfeusz.Text.Names.{normalize_player_name, is_valid_name}

-- What the handler asks of others: the tables of the DBC store, the C library's toupper, tolower and
-- mbstowcs on one character, the rows that a worker answers to an operation that is waited for, and the
-- realm's number.
pub record World : Type 0 where
  pub store : DbcStore
  pub toupper : ℕ → ℕ
  pub tolower : ℕ → ℕ
  pub wide : ℕ → ℕ
  pub ask : Operation → Option Rows
  pub realmid : ℕ

-- The bytes of the packet behind race and class, but for the outfit.
pub record Looks : Type 0 where
  pub gender : ℕ
  pub skin : ℕ
  pub face : ℕ
  pub hair_style : ℕ
  pub hair_color : ℕ
  pub facial_hair : ℕ

-- ResponseCodes that the handler sends.
abbrev pub char_create_success : ℕ
char_create_success = 0x2F

abbrev pub char_create_failed : ℕ
char_create_failed = 0x31

abbrev pub char_create_name_in_use : ℕ
char_create_name_in_use = 0x32

abbrev pub char_create_server_limit : ℕ
char_create_server_limit = 0x35

abbrev pub char_create_account_limit : ℕ
char_create_account_limit = 0x36

abbrev pub char_create_expansion : ℕ
char_create_expansion = 0x39

abbrev pub char_name_invalid_character : ℕ
char_name_invalid_character = 0x4F

-- res->rowsCount() > 0 && res->getUint8(1) >= limit, on the query's answer.
unfoldable pub reaches : ℕ → Rows → Option Bool
reaches limit res =
    if ltb 0 res.rows_count then (res.get_number 0 1 >>= λ n. some (leb limit n)) else some false

module _ (host : Host) where
  -- gender, skin, face, hair_style, hair_color, facial_hair and outfit_id
  unfoldable pub read_looks : ByteBuffer → Option Looks
  read_looks in_packet = do
    (gender, in_packet) ← read host 1 in_packet
    (skin, in_packet) ← read host 1 in_packet
    (face, in_packet) ← read host 1 in_packet
    (hair_style, in_packet) ← read host 1 in_packet
    (hair_color, in_packet) ← read host 1 in_packet
    (facial_hair, in_packet) ← read host 1 in_packet
    (outfit_id, in_packet) ← read host 1 in_packet
    some (record {
      gender = gender;
      skin = skin;
      face = face;
      hair_style = hair_style;
      hair_color = hair_color;
      facial_hair = facial_hair;
    })

  unfoldable pub reply : ℕ → Session → Option Session
  reply code c = do
    pkt ← new_server_pkt host 0x3A 1
    pkt ← append host 1 code pkt
    some (record c { socket = send pkt c.socket })

module _ (host : Host) (w : World) where
  -- enqueue_synch_query, less the future that it gives the operation.
  unfoldable pub ask_synch : Operation → Session → Option (Rows × Session)
  ask_synch op c =
      w.ask op >>= λ res. some (res, record c { enqueued = c.enqueued ++ Request.request op ∷ [] })

  -- The three queries: is there a character of the name, and has the account, everywhere and in this
  -- realm, reached its number.
  unfoldable pub name_taken : List ℕ → Session → Option (Bool × Session)
  unfolding add_string c_str ask_synch
  name_taken name c = do
    op ← add_string 1 (c_str name) (new_request proxyd_db_get_plr_guid_from_name none)
    (res, c) ← ask_synch op c
    some (not (res.rows_count == 0), c)

  unfoldable pub count_reaches : ℕ → ℕ → ℕ → Session → Option (Bool × Session)
  unfolding reaches add_uint32 ask_synch
  count_reaches statement limit acct_id c = do
    op ← add_uint32 host 1 acct_id (new_request statement none)
    (res, c) ← ask_synch op c
    full ← reaches limit res
    some (full, c)

  -- A code, or `inr` to go on.
  unfoldable pub check_limits : ℕ → List ℕ → Session → Option ((ℕ ⊎ List ℕ) × Session)
  check_limits acct_id name c = do
    (taken, c) ← name_taken name c
    (if taken then some (inl char_create_name_in_use, c) else (do
      (full, c) ← count_reaches proxyd_db_get_numchar 50 acct_id c
      (if full then some (inl char_create_account_limit, c) else (do
        (full, c) ← count_reaches proxyd_db_get_char_count 10 acct_id c
        some (if full then inl char_create_server_limit else inr name, c)))))

  -- The checks of handle_cmsg_char_create, up to its queries.
  unfoldable pub check_creation : List ℕ → ℕ → ℕ → Session → Option ((ℕ ⊎ List ℕ) × Session)
  check_creation name race pclass c = elim (find race w.store.chr_races) [
    | none ↦ some (inl char_create_failed, c)
    | some race_entry ↦ elim (find pclass w.store.chr_classes) [
      | none ↦ some (inl char_create_failed, c)
      | some class_entry ↦
          if ltb c.acct.expansion race_entry.addon
          then some (inl char_create_expansion, c)
          else elim (normalize_player_name w.toupper w.tolower name) [
            | none ↦ some (inl char_name_invalid_character, c)
            | some normal ↦
                if is_valid_name w.wide normal
                then check_limits c.acct.id normal c
                else some (inl char_name_invalid_character, c)
          ]
    ]
  ]

  -- Player::create's request.
  unfoldable pub player_create : ObjectMgr → ℕ → ℕ → List ℕ → ℕ → ℕ → Looks → Option Operation
  unfolding add_string add_uint32 add_uint8 add_float c_str get_player_create_info
  player_create mgr low_guid account name race pclass look = do
    op ← add_uint32 host 1 low_guid (new_request proxyd_db_ins_char none)
    op ← add_uint32 host 2 account op
    op ← add_string 3 (c_str name) op
    op ← add_uint8 host 4 race op
    op ← add_uint8 host 5 pclass op
    op ← add_uint8 host 6 look.gender op
    op ← add_uint32 host 7 1 op
    let player_bytes =
        bit_or (bit_or (bit_or look.skin (look.face * 2 ^ 8)) (look.hair_style * 2 ^ 16))
          (look.hair_color * 2 ^ 24)
    op ← add_uint32 host 8 player_bytes op
    op ← add_uint32 host 9 (bit_or look.facial_hair (2 * 2 ^ 24)) op
    pci ← get_player_create_info race pclass mgr
    op ← add_uint32 host 10 pci.zone_id op
    op ← add_uint32 host 11 pci.map_id op
    op ← add_float host 12 pci.position_x op
    op ← add_float host 13 pci.position_y op
    add_float host 14 pci.position_z op

  -- INCR_NUMCHAR and Player::create, in one transaction, with the manager after it gave a number.
  unfoldable pub creation :
      ObjectMgr → ℕ → List ℕ → ℕ → ℕ → Looks → Option (Transaction × ObjectMgr)
  unfolding player_create get_max_guid
  creation mgr acct_id name race pclass look = do
    op ← add_uint32 host 1 w.realmid (new_request proxyd_db_incr_numchar none)
    op ← add_uint32 host 2 acct_id op
    (guid, mgr) ← get_max_guid mgr
    created ← player_create mgr guid acct_id name race pclass look
    some (record { autocommit_state = false; requests = op ∷ created ∷ [] }, mgr)

  -- What follows the reading of name, race and class.
  unfoldable pub create_character :
      ByteBuffer → List ℕ → ℕ → ℕ → Session → ObjectMgr → Option (Session × ObjectMgr)
  create_character in_packet name race pclass c mgr = do
    (checked, c) ← check_creation name race pclass c
    elim checked [
      | inl code ↦ reply host code c >>= λ c. some (c, mgr)
      | inr normal ↦ (do
        look ← read_looks host in_packet
        (trans, mgr) ← creation mgr c.acct.id normal race pclass look
        c ←
            reply host char_create_success
              (record c { enqueued = c.enqueued ++ Request.transaction trans ∷ [] })
        some (c, mgr))
    ]

  handle_cmsg_char_create : ByteBuffer → Session → ObjectMgr → Option (Session × ObjectMgr)
  unfolding create_character
  handle_cmsg_char_create in_packet c mgr = do
    (long_enough, in_packet) ← check_size host 10 in_packet
    (if long_enough
        then (do
          (name, in_packet) ← read_string host in_packet
          (long_enough, in_packet) ← check_size host (length name + 1 + 9) in_packet
          (if long_enough
              then (do
                (race, in_packet) ← read host 1 in_packet
                (pclass, in_packet) ← read host 1 in_packet
                create_character in_packet name race pclass c mgr)
              else some (c, mgr)))
        else some (c, mgr))
