-- ===== src/ProxySession/Creation/Admissible.antt =====
-- proxyd/tbc/Proxy_Handlers.cpp, handle_cmsg_char_create: which characters are created, and how.
use morfeusz.Base.{
  ℕ, ◌≡◌, ◌≢◌, refl, List, [], ◌∷◌, ◌++◌, none, some, arith, length-append, le_bytes,
  length-le_bytes, bit_or, ◌*◌, ◌^◌, ◌+◌, u32,
}
use morfeusz.Endian.{Host}
use morfeusz.ByteBuffer.{ByteBuffer}
use morfeusz.ByteBuffer.Append.{filled, append-Writes}
use morfeusz.Packet.Header.{
  size_bytes, opcode_bytes, length-size_bytes, length-opcode_bytes, new_server_pkt_lem,
}
use morfeusz.Database.{Operation, new_request}
use morfeusz.ObjectMgr.{ObjectMgr, PlayerCreateInfo, get_player_create_info}
use morfeusz.Database.Params.{Given, add_all}
use morfeusz.Database.Transaction.{Transaction}
use morfeusz.Database.Worker.{Request}
use morfeusz.Database.Sql.{c_str}
use morfeusz.ProxyDatabase.{proxyd_db_incr_numchar, proxyd_db_ins_char}
use morfeusz.ProxySocket.{send}
use morfeusz.ProxySession.{Session}
use morfeusz.ProxySession.Creation.{World, Looks, read_looks, reply, char_create_success}
use morfeusz.ProxySession.Creation.Checks.{Queries, all_queries, enqueued_all, Admissible, Asked}

-- The session with the answer queued.
abbrev pub replied : Host → ℕ → Session → Session
replied host code c = record c {
  socket =
      send (filled (size_bytes host 1 ++ opcode_bytes host 0x3A ++ le_bytes 1 code) 0) c.socket;
}

pub reply_lem :
    (host : Host) (code : ℕ) (c : Session) → reply host code c ≡ some (replied host code c)
unfolding reply
reply_lem host code c =
    let front = size_bytes host 1 ++ opcode_bytes host 0x3A in
    rw
      (
        new_server_pkt_lem host 0x3A 1,
        append-Writes host 1 code front 0 (
            omega (
              arith,
              length-append (size_bytes host 1) (opcode_bytes host 0x3A),
              length-size_bytes host 1,
              length-opcode_bytes host 0x3A,
              length-le_bytes 1 code,
            )),
      )
      refl

module _ (host : Host) (w : World) where
  -- What Player::create adds, in order.
  abbrev pub player_values : ℕ → PlayerCreateInfo → ℕ → List ℕ → ℕ → ℕ → Looks → List Given
  player_values guid pci acct_id name race pclass look =
      Given.uint32 guid
      ∷ Given.uint32 acct_id
      ∷ Given.string (c_str name)
      ∷ Given.uint8 race
      ∷ Given.uint8 pclass
      ∷ Given.uint8 look.gender
      ∷ Given.uint32 1
      ∷ Given.uint32 (
          bit_or (bit_or (bit_or look.skin (look.face * 2 ^ 8)) (look.hair_style * 2 ^ 16))
            (look.hair_color * 2 ^ 24))
      ∷ Given.uint32 (bit_or look.facial_hair (2 * 2 ^ 24))
      ∷ Given.uint32 pci.zone_id
      ∷ Given.uint32 pci.map_id
      ∷ Given.float pci.position_x
      ∷ Given.float pci.position_y
      ∷ Given.float pci.position_z
      ∷ []

  -- One transaction of two requests: the account's count, and the character with the manager's next
  -- number, at the place where its race and class start; the manager's number goes on by one.
  abbrev pub IsCreation : ObjectMgr → ℕ → List ℕ → ℕ → ℕ → Looks → Transaction → ObjectMgr → Type 0
  IsCreation mgr acct_id name race pclass look trans after =
      (guid : ℕ) × (pci : PlayerCreateInfo) × (count insert : Operation) × (mgr.max_guid_char
        ≡ some guid)
      × (after ≡ record mgr { max_guid_char = some (u32 (guid + 1)) })
      × (get_player_create_info race pclass mgr ≡ some pci)
      × (trans.requests ≡ count ∷ insert ∷ [])
      × (add_all host 1 (Given.uint32 w.realmid ∷ Given.uint32 acct_id ∷ [])
            (new_request proxyd_db_incr_numchar none)
          ≡ some count)
      × (add_all host 1 (player_values guid pci acct_id name race pclass look)
            (new_request proxyd_db_ins_char none)
          ≡ some insert)

  -- A refusal: the code is queued for the client, and nothing is enqueued but the checks' queries.
  abbrev pub Refused : List ℕ → Session → ObjectMgr → Session × ObjectMgr → Type 0
  Refused name c mgr r =
      (code : ℕ) × (asked : Session) × (code ≢ char_create_success)
      × Asked host w c name asked
      × (r ≡ (replied host code asked, mgr))

  abbrev pub Created :
      ByteBuffer → List ℕ → ℕ → ℕ → Session → ObjectMgr → Session × ObjectMgr → Type 0
  Created in_packet name race pclass c mgr r =
      (normal : List ℕ) × (q : Queries host c.acct.id normal) × (look : Looks)
      × (trans : Transaction) × (after : ObjectMgr) × (asked : Session) × Admissible host w c name
          race pclass normal q
      × (asked ≡ enqueued_all (all_queries host w q) c)
      × (read_looks host in_packet ≡ some look)
      × IsCreation mgr asked.acct.id normal race pclass look trans after
      × (r ≡ (
        replied host char_create_success
            (record asked { enqueued = asked.enqueued ++ Request.transaction trans ∷ [] }),
        after,
      ))
