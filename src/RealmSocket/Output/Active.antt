-- ===== src/RealmSocket/Output/Active.antt =====
-- realmd/Realm_Socket.cpp, handle_output: the connection's state, and the mark that it was asked to
-- write what it has queued.
use morfeusz.Base.{
  ℕ, Bool, true, false, ◌≡◌, refl, inl, inr, List, [], ◌∷◌, Option, none, some, ◌>>=◌, Yields,
  Yields-if,
}
use morfeusz.ByteBuffer.{ByteBuffer}
use morfeusz.RealmSocket.{Socket, call}
use morfeusz.RealmSocket.Handlers.States.{Moved}
use morfeusz.RealmSocket.Output.{Flushed, Output, flush, finish, handle_output}

finish-Moved :
    (c : Socket) (wire : List ℕ) (queue : List ByteBuffer) (failed : Bool)
    → c.out_active ≡ true
    → Moved c.state c (finish c (record { wire = wire; queue = queue; failed = failed })).1
unfolding finish call
finish-Moved c wire queue true e = (refl, λ h. inr e)
finish-Moved c wire [] false e = (refl, λ h. inl refl)
finish-Moved c wire (buffer ∷ queue) false e = (refl, λ h. inr e)

abbrev Kept : Socket → List ℕ × (Output × Socket) → Type 0
Kept c r = Moved c.state c r.1.1

flushed-Moved :
    (c : Socket) (m : Option Flushed)
    → c.out_active ≡ true
    → Yields (Kept c) (m >>= λ r. some (r.wire, finish c r))
flushed-Moved c none e = tt
flushed-Moved c (some r) e = finish-Moved c r.wire r.queue r.failed e

pub handle_output-Moved :
    (sent : ℕ → Option ℕ) (c : Socket)
    → Yields (λ (r : List ℕ × (Output × Socket)). Moved c.state c r.1.1) (handle_output sent c)
unfolding handle_output
handle_output-Moved sent c =
    Yields-if (Kept c) c.out_active _ _ (λ e. flushed-Moved c (flush sent 0 c.packet_queue) e)
      (λ e. (refl, λ h. h))
