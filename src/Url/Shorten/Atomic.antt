-- ===== src/Url/Shorten/Atomic.antt =====
-- What ShortenURL (services/url-service/service.go) leaves in the database.
use url_shortener_microservi.Prelude.{
  ℕ, zero, suc, ◌+◌, ◌≤◌, ◌<◌, ◌≡◌, refl, sym, ap, ◌∙◌, subst, ℤ, true, false, Text, [], ◌∷◌, ◌++◌,
  Option, none, some, ok, >>=-eq-ok, some_of, ◌==◌, arith, Bool-cases, inl, inr, if-splits, List,
  Result,
}
use url_shortener_microservi.Base62.{generate}
use url_shortener_microservi.Url.Db.{
  UrlRecord, OutboxRecord, Db, DbError, unique_violation, no_rows, other, taken, insert, stored,
  insert_event, BeginFunc,
}
use url_shortener_microservi.Url.Shorten.{
  ParsedUrl, validate_url, normalize_hours, Attempt, Order, order, url_record, created_record,
  create, Looped, done, exhausted, broken, after_attempt, shorten_loop, ShortenResponse, Fill,
  Shortened, created_url, failed, answer, HttpError, http_error, invalid_url, shorten_url,
  max_attempts,
}

module _ (tx : BeginFunc) (o : Order) (attempts : ℕ → Attempt) where
  -- How the loop ends that began with attempt i on a database.
  abbrev pub LoopEnds : ℕ → ℕ → Db → Looped → Db → Type 0
  LoopEnds left i db (done a) db' =
      (j : ℕ) × (i ≤ j) × (j < i + left) × (a ≡ attempts j) × (create o (attempts j) db ≡ ok db')
  LoopEnds left i db exhausted db' = db' ≡ db
  LoopEnds left i db broken db' = db' ≡ db

  later-LoopEnds :
      (left i : ℕ) (db : Db) (l : Looped) (db' : Db)
      → LoopEnds left (suc i) db l db'
      → LoopEnds (suc left) i db l db'
  later-LoopEnds left i db (done a) db' (j, lo, hi, same, made) =
      (j, omega arith, omega arith, same, made)
  later-LoopEnds left i db exhausted db' h = h
  later-LoopEnds left i db broken db' h = h

  after_attempt-LoopEnds :
      (left i : ℕ) (db db' : Db) (again : Db → Looped × Db) (e : Option DbError)
      → (e ≡ none → create o (attempts i) db ≡ ok db')
      → ((x : DbError) → e ≡ some x → db' ≡ db)
      → LoopEnds left (suc i) db (again db).0 (again db).1
      → let (l, db'') = after_attempt tx o attempts (attempts i) again e db' in
        LoopEnds (suc left) i db l db''
  unfolding shorten_loop
  after_attempt-LoopEnds left i db db' again none made same rest =
      (i, omega arith, omega arith, refl, made refl)
  after_attempt-LoopEnds left i db db' again (some unique_violation) made same rest =
      subst (λ d. LoopEnds (suc left) i db (again d).0 (again d).1)
        (sym (same unique_violation refl)) (later-LoopEnds left i db (again db).0 (again db).1 rest)
  after_attempt-LoopEnds left i db db' again (some no_rows) made same rest = same no_rows refl
  after_attempt-LoopEnds left i db db' again (some other) made same rest = same other refl

  shorten_loop-LoopEnds :
      (left i : ℕ) (db : Db)
      → let (l, db') = shorten_loop tx o attempts left i db in LoopEnds left i db l db'
  unfolding shorten_loop
  shorten_loop-LoopEnds zero i db = refl
  shorten_loop-LoopEnds (suc left) i db =
      after_attempt-LoopEnds left i db (tx.run i (create o (attempts i)) db).1
        (shorten_loop tx o attempts left (suc i)) (tx.run i (create o (attempts i)) db).0
        (tx.commits i (create o (attempts i)) db) (tx.rolls_back i (create o (attempts i)) db)
        (shorten_loop-LoopEnds left (suc i) db)

-- What one transaction that succeeded has written: the row, whose code and id were free, and the
-- event of its creation.
pub record Inserted (o : Order) (a : Attempt) (db db' : Db) : Type 0 where
  pub fresh : taken (url_record o a) db.urls ≡ false
  pub rows : db'.urls ≡ db.urls ++ (stored (url_record o a) ∷ [])
  pub new_event : some_of (λ x. x.id == (created_record o a).id) db.outbox ≡ false
  pub events : db'.outbox ≡ db.outbox ++ (created_record o a ∷ [])

-- The row that is made has the code and the id of the record.
pub taken-stored : (r : UrlRecord) (rows : List UrlRecord) → taken (stored r) rows ≡ taken r rows
unfolding taken
taken-stored r rows = refl

pub insert-ok :
    (f : Option DbError) (r : UrlRecord) (db db' : Db)
    → insert f r db ≡ ok db'
    → (taken r db.urls ≡ false) × (db'.urls ≡ db.urls ++ (stored r ∷ [])) × (db'.outbox ≡ db.outbox)
unfolding insert
insert-ok none r db db' h = elim (if-splits (taken r db.urls) h) [
  | inl (in_use, refused) ↦ cc
  | inr (free, done_) ↦
      let same = ok-injective done_ in
      (free, ap (λ (d : Db). d.urls) (sym same), ap (λ (d : Db). d.outbox) (sym same))
]
  where
    wrapped : Db → Result DbError Db
    wrapped x = ok x

    ok-injective : {x y : Db} → wrapped x ≡ wrapped y → x ≡ y
    ok-injective q = cc
insert-ok (some e) r db db' h = cc

pub insert_event-ok :
    (f : Option DbError) (r : OutboxRecord) (db db' : Db)
    → insert_event f r db ≡ ok db'
    → (some_of (λ x. x.id == r.id) db.outbox ≡ false)
      × (db'.outbox ≡ db.outbox ++ (r ∷ []))
      × (db'.urls ≡ db.urls)
unfolding insert_event
insert_event-ok none r db db' h = ground arith
insert_event-ok (some e) r db db' h = cc

pub create-Inserted :
    (o : Order) (a : Attempt) (db db' : Db) → create o a db ≡ ok db' → Inserted o a db db'
unfolding create
create-Inserted o a db db' h =
    let (db₁, first, second) =
      >>=-eq-ok (insert a.insert_fault (url_record o a) db)
        (λ d. insert_event a.outbox_fault (created_record o a) d) h in
    let (fresh, rows, same) = insert-ok a.insert_fault (url_record o a) db db₁ first in
    let (new_event, events, kept) =
      insert_event-ok a.outbox_fault (created_record o a) db₁ db' second in
    record {
      fresh = fresh;
      rows = kept ∙ rows;
      new_event =
          subst (λ l. some_of (λ x. x.id == (created_record o a).id) l ≡ false) same new_event;
      events = events ∙ ap (λ l. l ++ (created_record o a ∷ [])) same;
    }

-- A short URL that ShortenURL answers.
pub record Created (o : Order) (a : Attempt) (resp : ShortenResponse) (fill : Fill) : Type 0 where
  pub code : resp.short_code ≡ generate a.random
  pub target : resp.original_url ≡ o.url
  pub expiry : resp.expires_at ≡ o.expires_at
  pub cached_code : fill.code ≡ generate a.random
  pub cached_target : fill.cached.original_url ≡ o.url
  pub cached_expiry : fill.cached.expires_at ≡ some o.expires_at
  pub cached_user_id : fill.cached.user_id ≡ o.user_id
  pub cached_user_email : fill.cached.user_email ≡ o.user_email
  pub cached_active : fill.cached.is_active ≡ true

answer-Created :
    (base : Text) (hours : ℕ) (o : Order) (l : Looped) (resp : ShortenResponse) (fill : Fill)
    → answer base hours o l ≡ created_url resp fill
    → (a : Attempt) × (l ≡ done a) × Created o a resp fill
unfolding answer
answer-Created base hours o (done a) resp fill h = (a, refl, ground arith)
answer-Created base hours o exhausted resp fill h = cc
answer-Created base hours o broken resp fill h = cc

module _ (tx : BeginFunc) (attempts : ℕ → Attempt) (db : Db) where
  failed-unchanged :
      (base : Text) (hours : ℕ) (o : Order) (l : Looped) (db' : Db) (e : HttpError)
      → LoopEnds tx o attempts max_attempts 0 db l db'
      → answer base hours o l ≡ failed e
      → db' ≡ db
  unfolding answer
  failed-unchanged base hours o (done a) db' e ends h = cc
  failed-unchanged base hours o exhausted db' e ends h = ends
  failed-unchanged base hours o broken db' e ends h = ends

module _ (parse : Text → Option ParsedUrl) (tx : BeginFunc) (base : Text)
    (url user_id user_email : Text) (expires_in_hours : ℤ) (now : ℕ) (attempts : ℕ → Attempt)
    (db : Db) where
  abbrev pub result : Shortened × Db
  result = shorten_url parse tx base url user_id user_email expires_in_hours now attempts db

  abbrev pub request : Order
  request = order url user_id user_email (normalize_hours expires_in_hours) now

  invalid-result :
      validate_url parse url ≡ false → result ≡ (failed (http_error 400 invalid_url), db)
  unfolding shorten_url
  invalid-result bad = rw bad

  pub valid-result :
      validate_url parse url ≡ true
      → let (l, db') = shorten_loop tx request attempts max_attempts 0 db in
        result ≡ (answer base (normalize_hours expires_in_hours) request l, db')
  unfolding shorten_url
  valid-result good = rw good

  -- If ShortenURL answers a short URL, then the URL is valid, and one of the three attempts has
  -- written, in one transaction, its row under a code and an id that were free and the event of its
  -- creation, and nothing else; the answer and the cache entry have the attempt's code.
  pub shorten_url-Created :
      (resp : ShortenResponse) (fill : Fill)
      → result.0 ≡ created_url resp fill
      → (validate_url parse url ≡ true)
        × ((i : ℕ) × (i < max_attempts)
            × Inserted request (attempts i) db result.1
            × Created request (attempts i) resp fill)
  shorten_url-Created resp fill h = elim (Bool-cases (validate_url parse url)) [
    | inr bad ↦ cc (invalid-result bad)
    | inl good ↦
        let looped = shorten_loop tx request attempts max_attempts 0 db in
        let (a, ends, made) =
          answer-Created base (normalize_hours expires_in_hours) request looped.0 resp fill
            (ap (λ (r : Shortened × Db). r.0) (sym (valid-result good)) ∙ h) in
        let (j, lo, hi, same, ok_) =
          subst (λ l. LoopEnds tx request attempts max_attempts 0 db l looped.1) ends
            (shorten_loop-LoopEnds tx request attempts max_attempts 0 db) in
        (
          good,
          (
            j,
            hi,
            subst (λ d. Inserted request (attempts j) db d)
                (ap (λ (r : Shortened × Db). r.1) (sym (valid-result good)))
                (create-Inserted request (attempts j) db looped.1 ok_),
            subst (λ b. Created request b resp fill) same made,
          ),
        )
  ]

  -- If ShortenURL answers an error, it has written nothing.
  pub shorten_url-failed : (e : HttpError) → result.0 ≡ failed e → result.1 ≡ db
  shorten_url-failed e h = elim (Bool-cases (validate_url parse url)) [
    | inr bad ↦ ap (λ (r : Shortened × Db). r.1) (invalid-result bad)
    | inl good ↦
        let looped = shorten_loop tx request attempts max_attempts 0 db in
        ap (λ (r : Shortened × Db). r.1) (valid-result good)
        ∙ failed-unchanged tx attempts db base (normalize_hours expires_in_hours) request looped.0
            looped.1 e (shorten_loop-LoopEnds tx request attempts max_attempts 0 db)
            (ap (λ (r : Shortened × Db). r.0) (sym (valid-result good)) ∙ h)
  ]
