-- ===== src/Database/Liveness.antt =====
-- database/Database.cpp, DatabaseWorker::svc: it comes to every request of its queue, and every
-- future whose statement was executed is given its result.
use morfeusz.Base.{
  ℕ, ◌<◌, ◌≡◌, refl, sym, ap, subst, ◌∙◌, true, false, List, [], ◌∷◌, ◌++◌, map, append_assoc,
  append-nil, Option, none, some, length,
}
use morfeusz.Endian.{Host}
use morfeusz.Database.{Operation}
use morfeusz.Database.Driver.{Driver}
use morfeusz.Database.Execute.{Outcome, Database, execute}
use morfeusz.Database.Transaction.{Connection, call_requests, call, destroy}
use morfeusz.Database.Worker.{Request, perform, svc}
use morfeusz.Database.Outcomes.{Answered, AllKnown, execute-Answered}

-- The statements that the requests name have been prepared.
abbrev pub KnownRequests : ℕ → List Request → Type 0
KnownRequests n [] = Unit {0}
KnownRequests n (Request.request op ∷ rs) = (op.statement < n) × KnownRequests n rs
KnownRequests n (Request.transaction tx ∷ rs) = AllKnown n tx.requests × KnownRequests n rs

KnownRequests-head :
    (n : ℕ) (r : Request) (rs : List Request) → KnownRequests n (r ∷ rs) → KnownRequests n (r ∷ [])
KnownRequests-head n (Request.request op) rs k = (k.0, tt)
KnownRequests-head n (Request.transaction tx) rs k = (k.0, tt)

KnownRequests-tail :
    (n : ℕ) (r : Request) (rs : List Request) → KnownRequests n (r ∷ rs) → KnownRequests n rs
KnownRequests-tail n (Request.request op) rs k = k.1
KnownRequests-tail n (Request.transaction tx) rs k = k.1

KnownRequests-before :
    (n : ℕ) (rs more : List Request) → KnownRequests n (rs ++ more) → KnownRequests n rs
KnownRequests-before n [] more k = tt
KnownRequests-before n (Request.request op ∷ rs) more k = (k.0, KnownRequests-before n rs more k.1)
KnownRequests-before n (Request.transaction tx ∷ rs) more k =
    (k.0, KnownRequests-before n rs more k.1)

KnownRequests-behind :
    (n : ℕ) (rs more : List Request) → KnownRequests n (rs ++ more) → KnownRequests n more
KnownRequests-behind n [] more k = k
KnownRequests-behind n (r ∷ rs) more k =
    KnownRequests-behind n rs more (KnownRequests-tail n r (rs ++ more) k)

-- No result that was given is taken back.
abbrev Grows : {S W R : Type 0} → Database S W R → Database S W R → Type 0
Grows {R} before after =
    (length after.statements ≡ length before.statements)
    × ((more : List (ℕ × R)) × (after.answers ≡ before.answers ++ more))

Grows-trans : {S W R : Type 0} (a b c : Database S W R) → Grows a b → Grows b c → Grows a c
Grows-trans a b c g h = (
  h.0 ∙ g.0,
  (g.1.0 ++ h.1.0, h.1.1 ∙ ap (λ l. l ++ h.1.0) g.1.1 ∙ append_assoc a.answers g.1.0 h.1.0),
)

Answered-more :
    {R : Type 0} (o : Outcome) (res : Option ℕ) (before after : List (ℕ × R))
    → Answered o res before after
    → (more : List (ℕ × R)) × (after ≡ before ++ more)
Answered-more Outcome.done none before after h = ([], h ∙ sym (append-nil before))
Answered-more Outcome.done (some f) before after h = ((f, h.0) ∷ [], h.1)
Answered-more Outcome.failed res before after h = ([], h ∙ sym (append-nil before))

module _ (host : Host) (double_of : ℕ → ℕ) {S W R : Type 0} (d : Driver S W R)
    (c : Connection W) where
  execute-Grows :
      (op : Operation) (db : Database S W R)
      → op.statement < length db.statements
      → (o : Outcome) × (after : Database S W R) × (execute host double_of d op db
          ≡ some (o, after))
        × Grows db after
        × Answered o op.result db.answers after.answers
  execute-Grows op db k =
      let (o, after, ran, same, answered) = execute-Answered host double_of d op db k in
      (o, after, ran, (same, Answered-more o op.result db.answers after.answers answered), answered)

  abbrev Goes : List Operation → Database S W R → Type 0
  Goes ops db =
      (o : Outcome) × (left : List Operation) × (after : Database S W R) × (call_requests host
          double_of d ops db
        ≡ some (o, (left, after)))
      × Grows db after

  call_requests-Goes :
      (ops : List Operation) (db : Database S W R)
      → AllKnown (length db.statements) ops
      → Goes ops db
  unfolding call_requests
  call_requests-Goes [] db k =
      (Outcome.done, [], db, refl, (refl, ([], sym (append-nil db.answers))))
  call_requests-Goes (op ∷ ops) db k =
      let (o, after, ran, grown, answered) = execute-Grows op db k.0 in
      elim o as (λ x. execute host double_of d op db ≡ some (x, after) → Goes (op ∷ ops) db) [
        | Outcome.done ↦ λ e.
            let known = subst (λ n. AllKnown n ops) (sym grown.0) k.1 in
            let (o', left, end, r, more) = call_requests-Goes ops after known in
            (o', left, end, rw e r, Grows-trans db after end grown more)
        | Outcome.failed ↦ λ e. (Outcome.failed, op ∷ ops, after, rw e refl, grown)
      ]
        ran

  perform-Grows :
      (r : Request) (db : Database S W R)
      → KnownRequests (length db.statements) (r ∷ [])
      → (after : Database S W R) × (perform host double_of d c r db ≡ some after) × Grows db after
  unfolding perform call destroy
  perform-Grows (Request.request op) db k =
      let (o, after, ran, grown, answered) = execute-Grows op db k.0 in (after, rw ran refl, grown)
  perform-Grows (Request.transaction tx) db k =
      let (o, left, after, ran, grown) =
        call_requests-Goes tx.requests (record db { server = c.set_auto_commit false db.server })
          k.0 in
      let ended : W → Database S W R → Database S W R =
        λ w end. record end { server = c.set_auto_commit (c.get_auto_commit db.server) w } in
      elim o
          as (λ x.
            call_requests host double_of d tx.requests
                (record db { server = c.set_auto_commit false db.server })
              ≡ some (x, (left, after))
            → (end : Database S W R) × (perform host double_of d c (Request.transaction tx) db
                ≡ some end)
              × Grows db end) [
                | Outcome.done ↦ λ e. (ended (c.commit after.server) after, rw e refl, grown)
                | Outcome.failed ↦ λ e. (ended (c.rollback after.server) after, rw e refl, grown)
              ]
        ran

  abbrev Served : List Request → Database S W R → Type 0
  Served rs db =
      (after : Database S W R) × (svc host double_of d c (map some rs) db ≡ some (false, after))
      × ((tail : List (Option Request))
          → svc host double_of d c (map some rs ++ tail) db ≡ svc host double_of d c tail after)
      × Grows db after

  svc-Served :
      (rs : List Request) (db : Database S W R)
      → KnownRequests (length db.statements) rs
      → Served rs db
  unfolding svc
  svc-Served [] db k = (db, refl, λ tail. refl, (refl, ([], sym (append-nil db.answers))))
  svc-Served (r ∷ rs) db k =
      let (mid, ran, grown) =
        perform-Grows r db (KnownRequests-head (length db.statements) r rs k) in
      let known =
        subst (λ n. KnownRequests n rs) (sym grown.0)
          (KnownRequests-tail (length db.statements) r rs k) in
      let (after, all, on, more) = svc-Served rs mid known in
      (after, rw ran all, λ tail. rw ran (on tail), Grows-trans db mid after grown more)

  -- Whatever requests with prepared statements are dequeued before it and behind it, a request comes to
  -- be executed; its future, if it has one, is given one result if it succeeds and none if it fails, and
  -- the worker goes on to the queue's end.
  pub svc-request :
      (before behind : List Request) (op : Operation) (rest : List (Option Request))
      (db : Database S W R)
      → KnownRequests (length db.statements) (before ++ Request.request op ∷ behind)
      → (found : Database S W R) × (o : Outcome) × (left : Database S W R) × (final : Database S W
          R)
        × (more : List (ℕ × R)) × (svc host double_of d c (map some before) db
            ≡ some (false, found))
        × (execute host double_of d op found ≡ some (o, left))
        × Answered o op.result found.answers left.answers
        × (svc host double_of d c
              (map some before ++ some (Request.request op) ∷ (map some behind ++ none ∷ rest))
              db
            ≡ some (true, final))
        × (final.answers ≡ left.answers ++ more)
  unfolding svc perform
  svc-request before behind op rest db k =
      let (found, ran, on, grown) =
        svc-Served before db (KnownRequests-before (length db.statements) before _ k) in
      let here =
        KnownRequests-behind (length db.statements) before (Request.request op ∷ behind) k in
      let (o, left, executed, grown', answered) =
        execute-Grows op found (subst (λ n. op.statement < n) (sym grown.0) here.0) in
      let known = subst (λ n. KnownRequests n behind) (sym (grown'.0 ∙ grown.0)) here.1 in
      let (final, all, after, more) = svc-Served behind left known in
      (
        found,
        o,
        left,
        final,
        more.1.0,
        ran,
        executed,
        answered,
        on _ ∙ rw executed (after (none ∷ rest)),
        more.1.1,
      )
