-- ===== src/ProxySession/CharacterList.antt =====
-- proxyd/tbc/Proxy_Handlers.cpp, characters_retrieved: the bytes of the character list.
use morfeusz.Base.{
  ℕ, zero, suc, ◌/◌, ◌^◌, ◌<◌, ◌≡◌, refl, Bool, List, [], ◌∷◌, ◌++◌, some, ◌>>=◌, arith, length,
  length-append, le_bytes, u8, if◌then◌else◌,
}
use morfeusz.Endian.{Host}
use morfeusz.ByteBuffer.{append}
use morfeusz.ByteBuffer.Append.{filled, Writes, append-Writes, Writes-bind, Writes-nil}
use morfeusz.ByteBuffer.Fields.{
  Field, all_bytes, put_field, put_fields, put_fields-Writes, put_then, put_then-Writes, Writes-if,
}
use morfeusz.Packet.Header.{size_bytes, opcode_bytes, new_server_pkt_lem}
use morfeusz.ProxyDatabase.{Character}
use morfeusz.ProxySocket.{send}
use morfeusz.ProxySession.{
  Session, put_item, put_items, put_character, put_characters, characters_retrieved,
}

-- A character as the client reads it, up to its equipment.
abbrev pub looks : Character → List Field
looks ch =
    Field.int 8 ch.guid
    ∷ Field.text ch.name
    ∷ Field.int 1 ch.race
    ∷ Field.int 1 ch.pclass
    ∷ Field.int 1 ch.gender
    ∷ Field.int 1 (u8 ch.bytes)
    ∷ Field.int 1 (u8 (ch.bytes / 2 ^ 8))
    ∷ Field.int 1 (u8 (ch.bytes / 2 ^ 16))
    ∷ Field.int 1 (u8 (ch.bytes / 2 ^ 24))
    ∷ Field.int 1 (u8 ch.bytes2)
    ∷ Field.int 1 ch.level
    ∷ Field.int 4 ch.zone
    ∷ Field.int 4 ch.map
    ∷ Field.int 4 ch.x
    ∷ Field.int 4 ch.y
    ∷ Field.int 4 ch.z
    ∷ Field.int 4 0
    ∷ Field.int 4 0
    ∷ Field.int 1 1
    ∷ Field.int 4 0
    ∷ Field.int 4 0
    ∷ Field.int 4 0
    ∷ []

abbrev pub no_item : List Field
no_item = Field.int 4 0 ∷ Field.int 1 0 ∷ Field.int 4 0 ∷ []

unfoldable pub no_items : ℕ → List ℕ
no_items zero = []
no_items (suc n) = all_bytes no_item ++ no_items n

unfoldable pub list_bytes : List Character → List ℕ
list_bytes [] = []
list_bytes (ch ∷ chs) =
    (all_bytes (looks ch) ++ (no_items 19 ++ all_bytes no_item)) ++ list_bytes chs

module _ (host : Host) where
  put_item-Writes : Writes (put_item host) (all_bytes no_item)
  unfolding put_item put_fields put_field
  put_item-Writes = put_fields-Writes host no_item

  put_items-Writes : (n : ℕ) → Writes (put_items host n) (no_items n)
  unfolding put_items no_items
  put_items-Writes zero ys r h = Writes-nil ys r h
  put_items-Writes (suc n) ys r h =
      Writes-bind (put_item host) (put_items host n) (all_bytes no_item) (no_items n)
        put_item-Writes (λ ys r h. put_items-Writes n ys r h) ys r h

  put_character-Writes :
      (ch : Character)
      → Writes (put_character host ch) (all_bytes (looks ch) ++ (no_items 19 ++ all_bytes no_item))
  unfolding put_character put_then put_field
  put_character-Writes ch ys r h =
      put_then-Writes host (looks ch) (λ p. put_items host 19 p >>= put_item host)
        (no_items 19 ++ all_bytes no_item)
        (Writes-bind (put_items host 19) (put_item host) (no_items 19) (all_bytes no_item)
          (put_items-Writes 19) put_item-Writes)
        ys r h

  put_characters-Writes : (chs : List Character) → Writes (put_characters host chs) (list_bytes chs)
  unfolding put_characters list_bytes
  put_characters-Writes [] ys r h = Writes-nil ys r h
  put_characters-Writes (ch ∷ chs) ys r h =
      Writes-bind (put_character host ch) (put_characters host chs)
        (all_bytes (looks ch) ++ (no_items 19 ++ all_bytes no_item)) (list_bytes chs)
        (put_character-Writes ch) (λ ys r h. put_characters-Writes chs ys r h) ys r h

  unfoldable pub enum_bytes : Bool → Session → List ℕ
  enum_bytes state c =
      size_bytes host 100
      ++ opcode_bytes host 0x3B
      ++ (if state
          then le_bytes 1 (u8 (length c.characters)) ++ list_bytes c.characters
          else le_bytes 1 0)

  -- The packet that is queued has the number of characters and each of them, in order, or a zero alone
  -- if there are none, as long as it stays below ten million bytes.
  pub characters_retrieved_lem :
      (state : Bool) (c : Session)
      → length (enum_bytes state c) < 10000000
      → characters_retrieved host state c
        ≡ some (record c { socket = send (filled (enum_bytes state c) 0) c.socket })
  unfolding characters_retrieved enum_bytes
  characters_retrieved_lem state c h =
      let front = size_bytes host 100 ++ opcode_bytes host 0x3B in
      let count = le_bytes 1 (u8 (length c.characters)) in
      let whole = count ++ list_bytes c.characters in
      let body = if state then whole else le_bytes 1 0 in
      let put =
        Writes-if state
          (λ p. append host 1 (u8 (length c.characters)) p >>= put_characters host c.characters)
          (append host 1 0) whole (le_bytes 1 0)
          (Writes-bind (append host 1 (u8 (length c.characters))) (put_characters host c.characters)
            count (list_bytes c.characters) (append-Writes host 1 (u8 (length c.characters)))
            (put_characters-Writes c.characters))
          (append-Writes host 1 0) in
      rw (new_server_pkt_lem host 0x3B 100, put front 0 (omega (arith, length-append front body)))
        refl
