-- ===== src/Pipeline/Safety.antt =====
-- The outbox, its workers and the consumer of clicks together (services/url-service/outbox.go,
-- services/analytics-service/).
use url_shortener_microservi.Prelude.{
  ℕ, ◌≡◌, refl, sym, ap, ◌∙◌, subst, Bool, Bool-cases, true, false, inl, inr, Text, List, [], ◌∷◌,
  ◌++◌, map, some_of, All, All-map, All-keep, All-append, All-split, Option, none, some, ok,
  text_eq, if◌then◌else◌, if-both, arith,
}
use url_shortener_microservi.Events.{Payload, url_clicked, type_name}
use url_shortener_microservi.Url.Db.{OutboxRecord, Db, DbError, insert_event}
use url_shortener_microservi.Url.Shorten.Atomic.{insert_event-ok}
use url_shortener_microservi.Url.Outbox.{
  unpublished, claimable, claimed, lock, lock_claimed, has_id, fetch_unpublished, outbox_batch_size,
  poll, marks, mark_row, mark_published, publish,
}
use url_shortener_microservi.Url.Outbox.Lease.{claimed-All}
use url_shortener_microservi.Analytics.{ClickEvent, Store}
use url_shortener_microservi.Pipeline.{
  Pipeline, routed, Step, emits, polls, publishes, unconfirmed, restarts, delivers, Reach, here,
  next,
}
use url_shortener_microservi.Pipeline.Copies.{
  DistinctIds, Agrees, Copies, SameMessage, DistinctIds-map, Copies-map, DistinctIds-append,
  Copies-append, DistinctIds-Copies,
}
use url_shortener_microservi.Pipeline.Kept.{
  InQueue-last, Kept, not_yet, no_click, waits, counted, discarded, Kept-queue, Kept-delivers,
}

-- The two statements keep id, type and payload.
lock_claimed-SameMessage :
    (now : ℕ) (rs : List OutboxRecord) (r : OutboxRecord) → SameMessage r (lock_claimed now rs r)
unfolding lock_claimed
lock_claimed-SameMessage now rs r =
    if-both (SameMessage r) (has_id r.id rs) (refl, refl, refl) (refl, refl, refl)

mark_row-SameMessage : (id now : ℕ) (r : OutboxRecord) → SameMessage r (mark_row id now r)
mark_row-SameMessage id now r =
    if-both (SameMessage r) (marks id r) (refl, refl, refl) (refl, refl, refl)

lock-Copies :
    (now : ℕ) (rows rs : List OutboxRecord)
    → All (Copies rows) rs
    → All (Copies rows) (map (lock now) rs)
lock-Copies now rows [] h = tt
lock-Copies now rows (r ∷ rs) h = (h.0, lock-Copies now rows rs h.1)

module _ (decode : Payload → Option ClickEvent) where
  -- The outbox has one row for an id, the workers hold copies of rows, and each row is kept.
  pub record IsSafe (p : Pipeline) : Type 0 where
    pub distinct : DistinctIds p.db.outbox
    pub kept : All (Kept decode p.queue p.store) p.db.outbox
    pub jobs : All (Copies p.db.outbox) p.jobs

  Kept-lock :
      (now : ℕ) (queue : List Payload) (store : Store) (r : OutboxRecord)
      → Kept decode queue store r
      → Kept decode queue store (lock now r)
  Kept-lock now queue store r (not_yet h) = not_yet h
  Kept-lock now queue store r (no_click h) = no_click h
  Kept-lock now queue store r (waits h) = waits h
  Kept-lock now queue store r (counted e p h) = counted e p h
  Kept-lock now queue store r (discarded h) = discarded h

  Kept-lock_claimed :
      (now : ℕ) (queue : List Payload) (store : Store) (rs rows : List OutboxRecord)
      → All (Kept decode queue store) rows
      → All (Kept decode queue store) (map (lock_claimed now rs) rows)
  unfolding lock_claimed
  Kept-lock_claimed now queue store rs [] h = tt
  Kept-lock_claimed now queue store rs (r ∷ rows) h = (
    if-both (Kept decode queue store) (has_id r.id rs) (Kept-lock now queue store r h.0) h.0,
    Kept-lock_claimed now queue store rs rows h.1,
  )

  -- A row whose message was just sent.
  Kept-sent :
      (queue : List Payload) (store : Store) (key : Text) (body : Payload) (r : OutboxRecord)
      → r.event_type ≡ key
      → r.payload ≡ body
      → Kept decode (queue ++ routed (some (key, body))) store r
  unfolding routed
  Kept-sent queue store key body r same its =
      elim (Bool-cases (text_eq key (type_name url_clicked))) [
        | inl is ↦ rw (is, if◌then◌else◌, sym its) (waits (InQueue-last r.payload queue))
        | inr is_not ↦ no_click (ap (λ t. text_eq t (type_name url_clicked)) same ∙ is_not)
      ]

  Kept-mark_row :
      (now : ℕ) (queue : List Payload) (store : Store) (job r : OutboxRecord)
      → Agrees job r
      → Kept decode queue store r
      → Kept decode
          (queue ++ routed (some (job.event_type, job.payload)))
          store
          (mark_row job.id now r)
  Kept-mark_row now queue store job r agrees h = elim (Bool-cases (marks job.id r)) [
    | inl m ↦
        let same : r.id ≡ job.id = ground arith in
        let (type_, body) = agrees same in
        rw (m, if◌then◌else◌) (Kept-sent queue store job.event_type job.payload _ type_ body)
    | inr m ↦ rw (m, if◌then◌else◌) (Kept-queue decode queue _ store r h)
  ]

  Kept-marked :
      (now : ℕ) (queue : List Payload) (store : Store) (job : OutboxRecord)
      (rows : List OutboxRecord)
      → All (Agrees job) rows
      → All (Kept decode queue store) rows
      → All
          (Kept decode (queue ++ routed (some (job.event_type, job.payload))) store)
          (map (mark_row job.id now) rows)
  Kept-marked now queue store job [] a h = tt
  Kept-marked now queue store job (r ∷ rows) a h =
      (Kept-mark_row now queue store job r a.0 h.0, Kept-marked now queue store job rows a.1 h.1)

  IsSafe-emits :
      (p : Pipeline) (r : OutboxRecord) (db : Db)
      → IsSafe p
      → r.published_at ≡ none
      → insert_event none r p.db ≡ ok db
      → IsSafe (record p { db = db })
  IsSafe-emits p r db s new e =
      let (fresh, rows, same) = insert_event-ok none r p.db db e in
      let back = sym rows in
      record {
        distinct = subst DistinctIds back (DistinctIds-append p.db.outbox r fresh s.distinct);
        kept = subst (All (Kept decode p.queue p.store)) back (
            All-append (Kept decode p.queue p.store) p.db.outbox (r ∷ []) s.kept
              (not_yet (ap unpublished new), tt));
        jobs =
            subst (λ l. All (Copies l) p.jobs) back
              (All-map (λ j c. Copies-append p.db.outbox r j fresh c) p.jobs s.jobs);
      }

  IsSafe-polls :
      (p : Pipeline) (fault : Option DbError) (now : ℕ)
      → IsSafe p
      → IsSafe (record p { db = (poll fault now p.db).1; jobs = p.jobs ++ (poll fault now p.db).0 })
  unfolding poll fetch_unpublished
  IsSafe-polls p (some e) now s = record {
    distinct = s.distinct;
    kept = s.kept;
    jobs = All-append (Copies p.db.outbox) p.jobs [] s.jobs tt;
  }
  IsSafe-polls p none now s =
      let rs = claimed outbox_batch_size now p.db in
      let same = lock_claimed-SameMessage now rs in
      let rows = map (lock_claimed now rs) p.db.outbox in
      let new : All (Copies p.db.outbox) rs =
        claimed-All (Copies p.db.outbox) outbox_batch_size now p.db (
          All-keep (Copies p.db.outbox) (claimable now) p.db.outbox
            (DistinctIds-Copies p.db.outbox s.distinct)) in
      record {
        distinct = DistinctIds-map (lock_claimed now rs) same p.db.outbox s.distinct;
        kept = Kept-lock_claimed now p.queue p.store rs p.db.outbox s.kept;
        jobs =
            All-map (λ j c. Copies-map (lock_claimed now rs) same p.db.outbox j c)
              (p.jobs ++ map (lock now) rs)
              (All-append (Copies p.db.outbox) p.jobs (map (lock now) rs) s.jobs
                (lock-Copies now p.db.outbox rs new));
      }

  -- What the database is after a message was sent, for each answer of MarkPublished.
  IsSafe-marked :
      (p : Pipeline) (fault : Option DbError) (now : ℕ) (job : OutboxRecord)
      (jobs : List OutboxRecord)
      → IsSafe p
      → Copies p.db.outbox job
      → All (Copies p.db.outbox) jobs
      → IsSafe (record p {
        db = (publish (λ _ _. true) fault now job p.db).1;
        jobs = jobs;
        queue = p.queue ++ routed (some (job.event_type, job.payload));
      })
  unfolding publish mark_published
  IsSafe-marked p (some e) now job jobs s c h = record {
    distinct = s.distinct;
    kept = All-map (λ r k. Kept-queue decode p.queue _ p.store r k) p.db.outbox s.kept;
    jobs = h;
  }
  IsSafe-marked p none now job jobs s c h = elim (Bool-cases (some_of (marks job.id) p.db.outbox)) [
    | inl there ↦
        rw (there, if◌then◌else◌)
          (record {
            distinct =
                DistinctIds-map (mark_row job.id now) (mark_row-SameMessage job.id now) p.db.outbox
                  s.distinct;
            kept = Kept-marked now p.queue p.store job p.db.outbox c.1 s.kept;
            jobs =
                All-map
                  (λ j k.
                    Copies-map (mark_row job.id now) (mark_row-SameMessage job.id now) p.db.outbox j
                      k)
                  jobs h;
          })
    | inr gone ↦
        rw (gone, if◌then◌else◌)
          (record {
            distinct = s.distinct;
            kept = All-map (λ r k. Kept-queue decode p.queue _ p.store r k) p.db.outbox s.kept;
            jobs = h;
          })
  ]

  IsSafe-unsent :
      (p : Pipeline) (jobs : List OutboxRecord)
      → IsSafe p
      → All (Copies p.db.outbox) jobs
      → IsSafe (record p { jobs = jobs; queue = p.queue ++ routed none })
  unfolding routed
  IsSafe-unsent p jobs s h = record {
    distinct = s.distinct;
    kept = All-map (λ r k. Kept-queue decode p.queue [] p.store r k) p.db.outbox s.kept;
    jobs = h;
  }

  IsSafe-publishes :
      (p : Pipeline) (sends : Bool) (fault : Option DbError) (now : ℕ) (job : OutboxRecord)
      (jobs : List OutboxRecord)
      → IsSafe p
      → Copies p.db.outbox job
      → All (Copies p.db.outbox) jobs
      → IsSafe (record p {
        db = (publish (λ _ _. sends) fault now job p.db).1;
        jobs = jobs;
        queue = p.queue ++ routed (publish (λ _ _. sends) fault now job p.db).0;
      })
  unfolding publish
  IsSafe-publishes p true fault now job jobs s c h = IsSafe-marked p fault now job jobs s c h
  IsSafe-publishes p false fault now job jobs s c h = IsSafe-unsent p jobs s h

  Step-IsSafe : (p q : Pipeline) → IsSafe p → Step decode p q → IsSafe q
  Step-IsSafe p q s (emits r db new e) = IsSafe-emits p r db s new e
  Step-IsSafe p q s (polls fault now) = IsSafe-polls p fault now s
  Step-IsSafe p q s (publishes sends fault now before after job e) =
      let (its, others) =
        All-split (Copies p.db.outbox) before after job
          (subst (All (Copies p.db.outbox)) e s.jobs) in
      IsSafe-publishes p sends fault now job (before ++ after) s its others
  Step-IsSafe p q s (unconfirmed before after job e) =
      let (_, others) =
        All-split (Copies p.db.outbox) before after job
          (subst (All (Copies p.db.outbox)) e s.jobs) in
      record {
        distinct = s.distinct;
        kept = All-map (λ r k. Kept-queue decode p.queue _ p.store r k) p.db.outbox s.kept;
        jobs = others;
      }
  Step-IsSafe p q s restarts = record { distinct = s.distinct; kept = s.kept; jobs = tt }
  Step-IsSafe p q s (delivers f draws before after m e) = record {
    distinct = s.distinct;
    kept =
        All-map (Kept-delivers decode f draws before after m p.store) p.db.outbox
          (subst (λ l. All (Kept decode l p.store) p.db.outbox) e s.kept);
    jobs = s.jobs;
  }

  -- From a state whose outbox and jobs are empty, whatever steps the services, the workers, restarts,
  -- failed publications, database errors and redeliveries take, where the broker has each message for
  -- which Publish returned nil: for every record of the outbox that is marked as published and is a
  -- click, its message is still in the queue of analytics-service, or the event is in the table of
  -- processed events, or its payload does not parse. The outbox has one record for an id, and every job
  -- of a worker has the type and payload of its record.
  pub Reach-IsSafe : (p q : Pipeline) → p.db.outbox ≡ [] → p.jobs ≡ [] → Reach decode p q → IsSafe q
  Reach-IsSafe p q rows jobs here = record {
    distinct = subst DistinctIds (sym rows) tt;
    kept = subst (All (Kept decode p.queue p.store)) (sym rows) tt;
    jobs = subst (All (Copies p.db.outbox)) (sym jobs) tt;
  }
  Reach-IsSafe p q rows jobs (next {q = mid} reach step) =
      Step-IsSafe mid q (Reach-IsSafe p mid rows jobs reach) step
