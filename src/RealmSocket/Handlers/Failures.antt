-- ===== src/RealmSocket/Handlers/Failures.antt =====
-- realmd/Realm_Socket.cpp, handle_auth_logon_proof: how many wrong proofs lead to a ban.
use morfeusz.Base.{ℕ, ◌≡◌, false, List, [], ◌∷◌, Option, some, ◌>>=◌, bytes_eq}
use morfeusz.Srp.{Proof, expected_proof}
use morfeusz.RealmSocket.{Socket, Env}
use morfeusz.RealmSocket.Handlers.{field, login_of, proof_packet, handle_auth_logon_proof}

module _ {L : Type 0} (env : Env L) where
  -- The client's packets of CMD_AUTH_LOGON_PROOF, one after the other.
  pub prove : List (List ℕ) → Socket → Option Socket
  prove [] c = some c
  prove (raw ∷ raws) c = handle_auth_logon_proof env raw c >>= prove raws

  -- The packet's proof is not the one that the server expects of the logon.
  abbrev pub IsWrong : Socket → List ℕ → Type 0
  IsWrong c raw =
      (p : Proof) × (expected_proof env.openssl env.stack (login_of env c) (proof_packet env raw)
        ≡ some p)
      × (bytes_eq (field raw 33 20) p.M ≡ false)

  abbrev pub AllWrong : Socket → List (List ℕ) → Type 0
  AllWrong c [] = Unit {0}
  AllWrong c (raw ∷ raws) = IsWrong c raw × AllWrong c raws
