-- ===== src/Url/Shorten/Collisions.antt =====
-- What ShortenURL (services/url-service/service.go) does when generated codes are in use already.
use url_shortener_microservi.Prelude.{
  ℕ, zero, suc, ◌+◌, ◌-◌, ◌≤◌, ◌<◌, ◌≡◌, refl, ap, ◌∙◌, ℤ, true, Text, Option, none, some, Result,
  err, ◌>>=◌, ap₂, arith,
}
use url_shortener_microservi.Url.Db.{
  UrlRecord, Db, DbError, unique_violation, taken, insert, insert_event, BeginFunc,
}
use url_shortener_microservi.Url.Shorten.{
  ParsedUrl, validate_url, normalize_hours, Attempt, Order, order, url_record, created_record,
  create, after_attempt, Looped, done, exhausted, shorten_loop, Shortened, failed, answer,
  http_error, already_exists, shorten_url, max_attempts,
}
use url_shortener_microservi.Url.Shorten.Atomic

insert-taken :
    (f : Option DbError) (r : UrlRecord) (db : Db)
    → f ≡ none
    → taken r db.urls ≡ true
    → insert f r db ≡ err unique_violation
unfolding insert
insert-taken none r db n t = rw t
insert-taken (some e) r db n t = cc

module _ (tx : BeginFunc) (o : Order) (attempts : ℕ → Attempt) (db : Db) where
  -- Attempt i draws a code, or an id, that a row has, and the database answers.
  pub record Collides (i : ℕ) : Type 0 where
    pub in_use : taken (url_record o (attempts i)) db.urls ≡ true
    pub answers : (attempts i).insert_fault ≡ none
    pub begun : tx.begins i ≡ true

  create-Collides : (i : ℕ) → Collides i → create o (attempts i) db ≡ err unique_violation
  unfolding create
  create-Collides i c =
      let a = attempts i in
      ap (λ (r : Result DbError Db). r >>= λ d. insert_event a.outbox_fault (created_record o a) d)
        (insert-taken a.insert_fault (url_record o a) db c.answers c.in_use)

  -- A collision leaves the database as it was, and the loop goes on.
  loop-Collides :
      (left i : ℕ)
      → Collides i
      → shorten_loop tx o attempts (suc left) i db ≡ shorten_loop tx o attempts left (suc i) db
  unfolding shorten_loop
  loop-Collides left i c =
      let f = create o (attempts i) in
      let violation = tx.passes i f db unique_violation c.begun (create-Collides i c) in
      ap₂ (after_attempt tx o attempts (attempts i) (shorten_loop tx o attempts left (suc i)))
        violation (tx.rolls_back i f db unique_violation violation)

  loop-all :
      (k left i : ℕ)
      → ((j : ℕ) → i ≤ j → j < i + k → Collides j)
      → shorten_loop tx o attempts (k + left) i db ≡ shorten_loop tx o attempts left (i + k) db
  loop-all zero left i c =
      ap₂ (λ m j. shorten_loop tx o attempts m j db) (omega arith) (omega arith)
  loop-all (suc k) left i c =
      ap (λ m. shorten_loop tx o attempts m i db) (omega arith)
      ∙ loop-Collides (k + left) i (c i (omega arith) (omega arith))
      ∙ loop-all k left (suc i) (λ j lo hi. c j (omega arith) (omega arith))
      ∙ ap (λ m. shorten_loop tx o attempts left m db) (omega arith)

  loop-exhausted : (i : ℕ) → shorten_loop tx o attempts 0 i db ≡ (exhausted, db)
  unfolding shorten_loop
  loop-exhausted i = refl

  -- The attempt that commits ends the loop.
  loop-commits :
      (left i : ℕ)
      → (tx.run i (create o (attempts i)) db).0 ≡ none
      → shorten_loop tx o attempts (suc left) i db
        ≡ (done (attempts i), (tx.run i (create o (attempts i)) db).1)
  unfolding shorten_loop
  loop-commits left i c =
      ap
        (λ e.
          after_attempt tx o attempts (attempts i) (shorten_loop tx o attempts left (suc i)) e
            (tx.run i (create o (attempts i)) db).1)
        c

module _ (parse : Text → Option ParsedUrl) (tx : BeginFunc) (base : Text)
    (url user_id user_email : Text) (expires_in_hours : ℤ) (now : ℕ) (attempts : ℕ → Attempt)
    (db : Db) (valid : validate_url parse url ≡ true) where
  abbrev request : Order
  request = order url user_id user_email (normalize_hours expires_in_hours) now

  -- Both cases of a number of collisions.
  shorten_url-collisions :
      (k : ℕ)
      → ((j : ℕ) → j < k → Collides tx request attempts db j)
      → let result =
          shorten_url parse tx base url user_id user_email expires_in_hours now attempts db in
        let run = tx.run k (create request (attempts k)) db in
        (k ≡ max_attempts → result ≡ (failed (http_error 409 already_exists), db))
        × (k < max_attempts
            → run.0 ≡ none
            → result
              ≡ (answer base (normalize_hours expires_in_hours) request (done (attempts k)), run.1))
  unfolding answer
  shorten_url-collisions k c =
      let loop = shorten_loop tx request attempts in
      let whole : Looped × Db → Shortened × Db =
        λ l. (answer base (normalize_hours expires_in_hours) request l.0, l.1) in
      let begin =
        Atomic.valid-result parse tx base url user_id user_email expires_in_hours now attempts db
          valid in
      let skip =
        λ (left : ℕ). loop-all tx request attempts db k left 0 (λ j lo hi. c j (omega arith)) in
      (
        λ all.
            begin
            ∙ ap whole (
                ap (λ m. loop m 0 db) (omega arith)
                ∙ skip 0
                ∙ loop-exhausted tx request attempts db (0 + k)),
        λ some_left commits.
            begin
            ∙ ap whole (
                ap (λ m. loop m 0 db) (omega arith)
                ∙ skip (suc (2 - k))
                ∙ ap (λ m. loop (suc (2 - k)) m db) (omega arith)
                ∙ loop-commits tx request attempts db (2 - k) k commits),
      )

  -- ShortenURL on a valid URL, if its three attempts all collide, answers 409 and writes nothing.
  pub shorten_url-exhausted :
      ((j : ℕ) → j < max_attempts → Collides tx request attempts db j)
      → shorten_url parse tx base url user_id user_email expires_in_hours now attempts db
        ≡ (failed (http_error 409 already_exists), db)
  shorten_url-exhausted c = (shorten_url-collisions max_attempts c).0 refl

  -- ShortenURL on a valid URL whose first k attempts collide, k below three: if the transaction of
  -- attempt k commits, that attempt's short URL is answered and what it wrote is kept.
  pub shorten_url-retries :
      (k : ℕ)
      → ((j : ℕ) → j < k → Collides tx request attempts db j)
      → k < max_attempts
      → (tx.run k (create request (attempts k)) db).0 ≡ none
      → shorten_url parse tx base url user_id user_email expires_in_hours now attempts db ≡ (
        answer base (normalize_hours expires_in_hours) request (done (attempts k)),
        (tx.run k (create request (attempts k)) db).1,
      )
  shorten_url-retries k c left commits = (shorten_url-collisions k c).1 left commits
