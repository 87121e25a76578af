-- ===== src/Tests/Sessions.antt =====
-- A client that logs in to the proxy with a key of forty bytes, and its characters.
use morfeusz.Base.{
  ℕ, ◌-◌, ◌<◌, ◌≡◌, ◌⊎◌, refl, true, false, List, [], ◌∷◌, ◌++◌, none, some, arith, length,
  length-append, replicate, take, ltb, if◌then◌else◌, le_value, le_bytes, bytes_eq,
}
use morfeusz.Endian.{Host}
use morfeusz.ByteBuffer.Append.{filled}
use morfeusz.ByteBuffer.Fields.{bytes, all_bytes}
use morfeusz.Packet.Header.{length-size_bytes, length-opcode_bytes, size_bytes, opcode_bytes}
use morfeusz.Srp.{OpenSsl, IsOpenSsl, fill}
use morfeusz.Database.Sql.{c_str}
use morfeusz.ProxyDatabase.{Character}
use morfeusz.ProxySocket.{ProxySocket, send}
use morfeusz.ProxySession.{Session, verifier, key_bytes, account_retrieved, characters_retrieved}
use morfeusz.ProxySession.Admission.{Admitted, account_retrieved_lem}
use morfeusz.ProxySession.Keys.{stored, key_bytes-stored}
use morfeusz.ProxySession.CharacterList.{no_items, list_bytes, enum_bytes, characters_retrieved_lem}
use morfeusz.ByteBuffer.{ByteBuffer}
use morfeusz.ProxySession.Creation.{World}
use morfeusz.ProxySession.Creation.Checks.{enqueued_all, all_queries, queries}
use morfeusz.Tests.Numbers.{openssl, openssl-IsOpenSsl}

abbrev front : List ℕ
front = replicate 39 0x21

abbrev key : List ℕ
key = front ++ 0x5A ∷ []

-- A text is the key's number, or zero if it is empty.
abbrev hexed : OpenSsl
hexed = record openssl {
  hex2bn = λ text. elim text [ [] ↦ 0 | _ ∷ _ ↦ le_value key ];
  bn2hex = λ x. 1 ∷ [];
}

hexed-IsOpenSsl : IsOpenSsl hexed
hexed-IsOpenSsl = record {
  mod_exp_lem = openssl-IsOpenSsl.mod_exp_lem;
  mul_lem = openssl-IsOpenSsl.mul_lem;
  add_lem = openssl-IsOpenSsl.add_lem;
  remainder_lem = openssl-IsOpenSsl.remainder_lem;
  bn2bin_lem = openssl-IsOpenSsl.bn2bin_lem;
  bn2bin_bytes = openssl-IsOpenSsl.bn2bin_bytes;
  bn2bin_length = openssl-IsOpenSsl.bn2bin_length;
  bin2bn_lem = openssl-IsOpenSsl.bin2bn_lem;
  length-sha1 = openssl-IsOpenSsl.length-sha1;
  sha1_bytes = openssl-IsOpenSsl.sha1_bytes;
}

key_bytes-stored_example :
    key_bytes hexed (hexed.hex2bn (c_str (stored hexed hexed-IsOpenSsl key)))
    ≡ (if ltb 0 0x5A then some key else none)
unfolding c_str
key_bytes-stored_example =
    key_bytes-stored hexed hexed-IsOpenSsl front 0x5A (ground arith) refl (omega arith) refl

abbrev hmac : List ℕ → List ℕ → List ℕ
hmac a b = a

abbrev quiet : ProxySocket
quiet = record {
  crypto = record {
    is_initialised = false;
    key = [];
    send_i = 0;
    send_j = 0;
    recv_i = 0;
    recv_j = 0;
  };
  packet_queue = [];
  out_active = false;
  continue_send = false;
  calls = [];
}

abbrev hero : Character
hero = record {
  guid = 7;
  race = 1;
  pclass = 2;
  gender = 0;
  bytes = 0x01020304;
  bytes2 = 5;
  level = 60;
  name = 65 ∷ 98 ∷ [];
  x = 0;
  y = 0;
  z = 0;
  map = 1;
  zone = 12;
}

abbrev knocking : Session
knocking = record {
  socket = quiet;
  acct = record {
    id = 3;
    gmlevel = 0;
    sessionkey = 1 ∷ [];
    sha_pass_hash = [];
    v = 1 ∷ [];
    s = [];
    expansion = 1;
  };
  login = 65 ∷ [];
  client_seed = 11;
  client_digest = replicate 20 0;
  seed = 12;
  characters = hero ∷ [];
  enqueued = [];
  died = false;
}

-- Another account's verifier.
abbrev stranger : Session
stranger = record knocking { acct = record knocking.acct { v = 2 ∷ [] } }

account_retrieved_lem_example :
    (record stranger { died = true } ≡ record stranger { died = true })
    ⊎ Admitted Host.little hexed hmac stranger (record stranger { died = true })
unfolding account_retrieved verifier fill c_str le_value bytes_eq
account_retrieved_lem_example =
    account_retrieved_lem Host.little hexed hmac stranger (record stranger { died = true }) refl

abbrev listed : List ℕ
listed = le_bytes 1 1 ++ list_bytes (hero ∷ [])

length-listed : length listed ≡ 242
unfolding list_bytes no_items all_bytes bytes le_bytes
length-listed = refl

short : length (enum_bytes Host.little true knocking) < 10000000
unfolding enum_bytes
short =
    let header = length-append (size_bytes Host.little 100) (opcode_bytes Host.little 0x3B) in
    omega (
      arith,
      length-append (size_bytes Host.little 100 ++ opcode_bytes Host.little 0x3B) listed,
      header,
      length-size_bytes Host.little 100,
      length-opcode_bytes Host.little 0x3B,
      length-listed,
    )

characters_retrieved_lem_example :
    characters_retrieved Host.little true knocking
    ≡ some
        (record knocking { socket = send (filled (enum_bytes Host.little true knocking) 0) quiet })
characters_retrieved_lem_example = characters_retrieved_lem Host.little true knocking short

-- Everything is known, the name is free, and the account has fifty characters.
abbrev crowded : World
crowded = record {
  store = record {
    path = [];
    items = [];
    spell_item_enchantments = [];
    chr_races =
        (
          1,
          record {
            race_id = 1;
            faction_id = 12;
            model_m = 49;
            model_f = 50;
            team_id = 7;
            startmovie = 81;
            addon = 0;
          },
        )
        ∷ [];
    chr_classes = (1, record { class_id = 1; powertype = 1; spellfamily = 4 }) ∷ [];
  };
  toupper = λ c. c - 32;
  tolower = λ c. c;
  wide = λ c. c;
  ask = λ op. some (record {
    rows_count = op.statement - 2;
    get_number = λ row column. some 50;
    get_string = λ row column. none;
  });
  realmid = 1;
}

abbrev anna : List ℕ
anna = 97 ∷ 110 ∷ 110 ∷ 97 ∷ []

abbrev capital : List ℕ
capital = 65 ∷ 110 ∷ 110 ∷ 97 ∷ []

abbrev looks_packet : ByteBuffer
looks_packet = filled (replicate 7 0) 0

-- The queries for the name and for the account are asked.
abbrev asked : Session
asked =
    enqueued_all (take 2 (all_queries Host.little crowded (queries Host.little 3 capital))) knocking
