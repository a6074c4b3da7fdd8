-- ===== src/Pipeline/Rounds.antt =====
-- A poll of the outbox and the publication of what it hands out, without errors
-- (services/url-service/outbox.go).
use url_shortener_microservi.Prelude.{
  ℕ, suc, ◌≤◌, ◌≡◌, refl, sym, ap, ◌∙◌, Bool, Bool-cases, inl, inr, true, false, not, ◌&&◌, ◌||◌,
  List, [], ◌∷◌, length, map, take-all, keep, some_of, All, All-map, none, some, ◌==◌,
  if◌then◌else◌, arith,
}
use url_shortener_microservi.Url.Db.{OutboxRecord, Db}
use url_shortener_microservi.Url.Outbox.{
  unpublished, claimable, place, order_by_created_at, claimed, lock, has_id, lock_claimed,
  fetch_unpublished, outbox_batch_size, poll, marks, mark_row, mark_published, publish,
}
use url_shortener_microservi.Pipeline.Copies.{DistinctIds}

-- A worker that publishes jobs one after the other.
unfoldable pub publish_all : ℕ → List OutboxRecord → Db → Db
publish_all now [] db = db
publish_all now (j ∷ js) db = publish_all now js (publish (λ _ _. true) none now j db).1

-- A poll, and the publication of its jobs.
unfoldable pub round : ℕ → ℕ → Db → Db
round now later db = let polled = poll none now db in publish_all later polled.0 polled.1

-- A row after jobs were published.
abbrev mark_all : ℕ → List OutboxRecord → OutboxRecord → OutboxRecord
mark_all now [] r = r
mark_all now (j ∷ js) r = mark_all now js (mark_row j.id now r)

unmarked :
    (id now : ℕ) (rows : List OutboxRecord)
    → some_of (marks id) rows ≡ false
    → map (mark_row id now) rows ≡ rows
unfolding some_of
unmarked id now [] h = refl
unmarked id now (r ∷ rs) h = ground (arith, unmarked id now rs (ground arith))

publish-rows :
    (now : ℕ) (j : OutboxRecord) (db : Db)
    → (publish (λ _ _. true) none now j db).1.outbox ≡ map (mark_row j.id now) db.outbox
unfolding publish mark_published
publish-rows now j db = elim (Bool-cases (some_of (marks j.id) db.outbox)) [
  | inl t ↦ rw (t, if◌then◌else◌) refl
  | inr f ↦ rw (f, if◌then◌else◌) (sym (unmarked j.id now db.outbox f))
]

map-mark_all :
    (now : ℕ) (j : OutboxRecord) (js rows : List OutboxRecord)
    → map (mark_all now js) (map (mark_row j.id now) rows) ≡ map (mark_all now (j ∷ js)) rows
map-mark_all now j js [] = refl
map-mark_all now j js (r ∷ rs) =
    ap (λ l. mark_all now js (mark_row j.id now r) ∷ l) (map-mark_all now j js rs)

map-same : (now : ℕ) (rows : List OutboxRecord) → rows ≡ map (mark_all now []) rows
map-same now [] = refl
map-same now (r ∷ rs) = ap (λ l. r ∷ l) (map-same now rs)

publish_all-rows :
    (now : ℕ) (js : List OutboxRecord) (db : Db)
    → (publish_all now js db).outbox ≡ map (mark_all now js) db.outbox
unfolding publish_all
publish_all-rows now [] db = map-same now db.outbox
publish_all-rows now (j ∷ js) db =
    publish_all-rows now js (publish (λ _ _. true) none now j db).1
    ∙ (ap (map (mark_all now js)) (publish-rows now j db) ∙ map-mark_all now j js db.outbox)

-- A published row stays as it is.
mark_all-published :
    (now : ℕ) (js : List OutboxRecord) (r : OutboxRecord)
    → unpublished r.published_at ≡ false
    → mark_all now js r ≡ r
mark_all-published now [] r h = refl
mark_all-published now (j ∷ js) r h =
    let same : mark_row j.id now r ≡ r = ground arith in
    ap (mark_all now js) same ∙ mark_all-published now js r h

-- A row without a job stays as it is.
mark_all-other :
    (now : ℕ) (js : List OutboxRecord) (r : OutboxRecord)
    → has_id r.id js ≡ false
    → mark_all now js r ≡ r
unfolding some_of
mark_all-other now [] r h = refl
mark_all-other now (j ∷ js) r h =
    let same : mark_row j.id now r ≡ r = ground arith in
    ap (mark_all now js) same ∙ mark_all-other now js r (ground arith)

-- A row with a job is published.
mark_all-job :
    (now : ℕ) (js : List OutboxRecord) (r : OutboxRecord)
    → has_id r.id js ≡ true
    → unpublished (mark_all now js r).published_at ≡ false
unfolding some_of
mark_all-job now [] r h = cc
mark_all-job now (j ∷ js) r h = elim (Bool-cases (marks j.id r)) [
  | inl m ↦
      let r' = record r { published_at = some now; locked_until = none } in
      let marked : mark_row j.id now r ≡ r' = ground arith in
      ap open_after marked
      ∙ ap (λ (x : OutboxRecord). unpublished x.published_at) (mark_all-published now js r' refl)
  | inr m ↦
      let same : mark_row j.id now r ≡ r = ground arith in
      ap open_after same ∙ elim (Bool-cases (unpublished r.published_at)) [
        | inl open_ ↦ mark_all-job now js r (ground arith)
        | inr done ↦
            ap (λ (x : OutboxRecord). unpublished x.published_at) (mark_all-published now js r done)
            ∙ done
      ]
]
  where
    open_after : OutboxRecord → Bool
    open_after x = unpublished (mark_all now js x).published_at

-- The rows that a test keeps have, among rows of distinct ids, the ids of no others.
has_id-keep :
    (p : OutboxRecord → Bool) (id : ℕ) (rows : List OutboxRecord)
    → has_id id rows ≡ false
    → has_id id (keep p rows) ≡ false
unfolding keep some_of
has_id-keep p id [] h = refl
has_id-keep p id (r ∷ rs) h = ground (arith, has_id-keep p id rs (ground arith))

other_ids :
    (id : ℕ) (rows : List OutboxRecord)
    → has_id id rows ≡ false
    → All (λ r. (id == r.id) ≡ false) rows
unfolding some_of
other_ids id [] h = tt
other_ids id (r ∷ rs) h = (ground arith, other_ids id rs (ground arith))

All-both :
    (P Q : OutboxRecord → Type 0) (rows : List OutboxRecord)
    → All P rows
    → All Q rows
    → All (λ r. P r × Q r) rows
All-both P Q [] h k = tt
All-both P Q (r ∷ rs) h k = ((h.0, k.0), All-both P Q rs h.1 k.1)

has_id-kept :
    (p : OutboxRecord → Bool) (rows : List OutboxRecord)
    → DistinctIds rows
    → All (λ r. has_id r.id (keep p rows) ≡ p r) rows
unfolding keep some_of
has_id-kept p [] d = tt
has_id-kept p (x ∷ xs) d = (
  ground (arith, has_id-keep p x.id xs d.0),
  All-map (λ (r : OutboxRecord) h. later r h.0 h.1) xs
      (All-both (λ r. (x.id == r.id) ≡ false) (λ r. has_id r.id (keep p xs) ≡ p r) xs
        (other_ids x.id xs d.0) (has_id-kept p xs d.1)),
)
  where
    later :
        (r : OutboxRecord)
        → (x.id == r.id) ≡ false
        → has_id r.id (keep p xs) ≡ p r
        → has_id r.id (keep p (x ∷ xs)) ≡ p r
    later r n h = ground (arith)

-- Ordering and locking keep the ids.
has_id-place :
    (id : ℕ) (r : OutboxRecord) (rs : List OutboxRecord)
    → has_id id (place r rs) ≡ has_id id (r ∷ rs)
unfolding place some_of
has_id-place id r [] = refl
has_id-place id r (x ∷ xs) = ground (arith, has_id-place id r xs)

has_id-order : (id : ℕ) (rs : List OutboxRecord) → has_id id (order_by_created_at rs) ≡ has_id id rs
unfolding order_by_created_at some_of
has_id-order id [] = refl
has_id-order id (r ∷ rs) =
    has_id-place id r (order_by_created_at rs) ∙ ap (λ b. r.id == id || b) (has_id-order id rs)

length-place : (r : OutboxRecord) (rs : List OutboxRecord) → length (place r rs) ≡ suc (length rs)
unfolding place
length-place r [] = refl
length-place r (x ∷ xs) = ground (arith, length-place r xs)

length-order : (rs : List OutboxRecord) → length (order_by_created_at rs) ≡ length rs
unfolding order_by_created_at
length-order [] = refl
length-order (r ∷ rs) = omega (arith, length-place r (order_by_created_at rs), length-order rs)

-- What a round makes of a row, where `jobs` are the rows that it claims.
abbrev after_round : ℕ → ℕ → List OutboxRecord → OutboxRecord → OutboxRecord
after_round now later jobs r = mark_all later (map (lock now) jobs) (lock_claimed now jobs r)

has_id-lock : (now id : ℕ) (rs : List OutboxRecord) → has_id id (map (lock now) rs) ≡ has_id id rs
unfolding some_of
has_id-lock now id [] = refl
has_id-lock now id (r ∷ rs) = ap (λ b. r.id == id || b) (has_id-lock now id rs)

after_round-other :
    (now later : ℕ) (jobs : List OutboxRecord) (r : OutboxRecord)
    → has_id r.id jobs ≡ false
    → after_round now later jobs r ≡ r
unfolding lock_claimed
after_round-other now later jobs r h =
    ap (λ b. mark_all later (map (lock now) jobs) (if b then lock now r else r)) h
    ∙ mark_all-other later (map (lock now) jobs) r (has_id-lock now r.id jobs ∙ h)

after_round-job :
    (now later : ℕ) (jobs : List OutboxRecord) (r : OutboxRecord)
    → has_id r.id jobs ≡ true
    → unpublished (after_round now later jobs r).published_at ≡ false
unfolding lock_claimed
after_round-job now later jobs r h =
    ap
      (λ b.
        unpublished
          (mark_all later (map (lock now) jobs) (if b then lock now r else r)).published_at)
      h
    ∙ mark_all-job later (map (lock now) jobs) (lock now r) (has_id-lock now r.id jobs ∙ h)

-- Whether a row has still to be published.
abbrev pub waiting : OutboxRecord → Bool
waiting r = unpublished r.published_at

keep-waiting :
    (f : OutboxRecord → OutboxRecord) (p : OutboxRecord → Bool) (rows : List OutboxRecord)
    → All (λ r. (p r ≡ true → waiting (f r) ≡ false) × (p r ≡ false → f r ≡ r)) rows
    → keep waiting (map f rows) ≡ keep (λ r. waiting r && not (p r)) rows
unfolding keep
keep-waiting f p [] h = refl
keep-waiting f p (r ∷ rs) h = elim (Bool-cases (p r)) [
  | inl t ↦ let gone = h.0.0 t in let rest = keep-waiting f p rs h.1 in ground (arith, gone, rest)
  | inr n ↦
      let same = h.0.1 n in let rest = keep-waiting f p rs h.1 in rw same (ground (arith, n, rest))
]

map-map :
    (f g : OutboxRecord → OutboxRecord) (rows : List OutboxRecord)
    → map f (map g rows) ≡ map (λ r. f (g r)) rows
map-map f g [] = refl
map-map f g (r ∷ rs) = ap (λ l. f (g r) ∷ l) (map-map f g rs)

round-rows :
    (now later : ℕ) (db : Db)
    → (round now later db).outbox
      ≡ map (after_round now later (claimed outbox_batch_size now db)) db.outbox
unfolding round poll fetch_unpublished
round-rows now later db =
    let jobs = claimed outbox_batch_size now db in
    publish_all-rows later (map (lock now) jobs) _
    ∙ map-map (mark_all later (map (lock now) jobs)) (lock_claimed now jobs) db.outbox

claimed-ids :
    (now id : ℕ) (db : Db)
    → length (keep (claimable now) db.outbox) ≤ 50
    → has_id id (claimed outbox_batch_size now db) ≡ has_id id (keep (claimable now) db.outbox)
unfolding claimed
claimed-ids now id db h =
    let rows = keep (claimable now) db.outbox in
    ap (has_id id) (take-all 50 (order_by_created_at rows) (omega (arith, length-order rows)))
    ∙ has_id-order id rows

-- Where no two rows have one id and no more than 50 rows can be claimed, a poll whose jobs are all sent
-- and marked leaves to be published exactly the rows that were to be published and that it could not
-- claim.
pub round-drains :
    (now later : ℕ) (db : Db)
    → DistinctIds db.outbox
    → length (keep (claimable now) db.outbox) ≤ 50
    → keep waiting (round now later db).outbox
      ≡ keep (λ r. waiting r && not (claimable now r)) db.outbox
round-drains now later db distinct few =
    let jobs = claimed outbox_batch_size now db in
    ap (keep waiting) (round-rows now later db)
    ∙ keep-waiting (after_round now later jobs) (claimable now) db.outbox (
        All-map
          (λ (r : OutboxRecord) its. (
            λ t. after_round-job now later jobs r (claimed-ids now r.id db few ∙ (its ∙ t)),
            λ f. after_round-other now later jobs r (claimed-ids now r.id db few ∙ (its ∙ f)),
          ))
          db.outbox (has_id-kept (claimable now) db.outbox distinct))
