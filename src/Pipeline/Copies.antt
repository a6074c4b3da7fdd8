-- ===== src/Pipeline/Copies.antt =====
-- Records of the outbox (services/url-service/outbox_store.go) in the hands of workers: each has the
-- id, the type and the payload of a row.
use url_shortener_microservi.Prelude.{
  ℕ, ◌≡◌, refl, sym, ap, ◌∙◌, true, false, ◌||◌, List, [], ◌∷◌, ◌++◌, map, some_of, All, All-map,
  All-append, ◌==◌, arith,
}
use url_shortener_microservi.Url.Db.{OutboxRecord}
use url_shortener_microservi.Url.Outbox.{has_id}

-- No two rows have one id.
abbrev pub DistinctIds : List OutboxRecord → Type 0
DistinctIds [] = Unit
DistinctIds (r ∷ rs) = (has_id r.id rs ≡ false) × DistinctIds rs

-- A row of the job's id has its type and payload.
abbrev pub Agrees : OutboxRecord → OutboxRecord → Type 0
Agrees job r = r.id ≡ job.id → (r.event_type ≡ job.event_type) × (r.payload ≡ job.payload)

abbrev pub Copies : List OutboxRecord → OutboxRecord → Type 0
Copies rows job = (has_id job.id rows ≡ true) × All (Agrees job) rows

-- A change of rows that leaves id, type and payload.
abbrev pub SameMessage : OutboxRecord → OutboxRecord → Type 0
SameMessage r r' = (r'.id ≡ r.id) × (r'.event_type ≡ r.event_type) × (r'.payload ≡ r.payload)

module _ (f : OutboxRecord → OutboxRecord) (same : (r : OutboxRecord) → SameMessage r (f r)) where
  has_id-map : (id : ℕ) (rs : List OutboxRecord) → has_id id (map f rs) ≡ has_id id rs
  unfolding some_of
  has_id-map id [] = refl
  has_id-map id (r ∷ rs) = ground (arith, same r, has_id-map id rs)

  pub DistinctIds-map : (rs : List OutboxRecord) → DistinctIds rs → DistinctIds (map f rs)
  DistinctIds-map [] d = tt
  DistinctIds-map (r ∷ rs) d =
      (has_id-map (f r).id rs ∙ (ap (λ i. has_id i rs) (same r).0 ∙ d.0), DistinctIds-map rs d.1)

  Agrees-map :
      (job : OutboxRecord) (rs : List OutboxRecord)
      → All (Agrees job) rs
      → All (Agrees job) (map f rs)
  Agrees-map job [] h = tt
  Agrees-map job (r ∷ rs) h =
      let (id, type_, payload) = same r in
      let its = h.0 in
      (λ e. let (t, p) = its (sym id ∙ e) in (type_ ∙ t, payload ∙ p), Agrees-map job rs h.1)

  pub Copies-map :
      (rows : List OutboxRecord) (job : OutboxRecord) → Copies rows job → Copies (map f rows) job
  Copies-map rows job c = (has_id-map job.id rows ∙ c.0, Agrees-map job rows c.1)

-- A row that is added under a new id.
has_id-append :
    (id : ℕ) (rs : List OutboxRecord) (r : OutboxRecord)
    → has_id id (rs ++ (r ∷ [])) ≡ (has_id id rs || r.id == id)
unfolding some_of
has_id-append id [] r = ground arith
has_id-append id (x ∷ xs) r = ground (arith, has_id-append id xs r)

pub DistinctIds-append :
    (rs : List OutboxRecord) (r : OutboxRecord)
    → has_id r.id rs ≡ false
    → DistinctIds rs
    → DistinctIds (rs ++ (r ∷ []))
unfolding some_of
DistinctIds-append [] r n d = (refl, tt)
DistinctIds-append (x ∷ xs) r n d =
    (ground (arith, has_id-append x.id xs r), DistinctIds-append xs r (ground arith) d.1)

other_id :
    (rows : List OutboxRecord) (job r : OutboxRecord)
    → has_id job.id rows ≡ true
    → has_id r.id rows ≡ false
    → r.id ≡ job.id
    → ⊥
other_id rows job r held free e =
    true-ne-false (sym held ∙ (ap (λ i. has_id i rows) (sym e) ∙ free))
  where
    true-ne-false : true ≡ false → ⊥
    true-ne-false q = cc

pub Copies-append :
    (rows : List OutboxRecord) (r job : OutboxRecord)
    → has_id r.id rows ≡ false
    → Copies rows job
    → Copies (rows ++ (r ∷ [])) job
Copies-append rows r job n c = (
  ground (arith, has_id-append job.id rows r),
  All-append (Agrees job) rows (r ∷ []) c.1 (λ e. absurd (other_id rows job r c.0 n e), tt),
)

-- Every row is a copy of itself.
none-Agrees :
    (job : OutboxRecord) (rs : List OutboxRecord) → has_id job.id rs ≡ false → All (Agrees job) rs
unfolding some_of
none-Agrees job [] n = tt
none-Agrees job (r ∷ rs) n = (λ e. absurd (ground arith), none-Agrees job rs (ground arith))

pub DistinctIds-Copies : (rs : List OutboxRecord) → DistinctIds rs → All (Copies rs) rs
unfolding some_of
DistinctIds-Copies [] d = tt
DistinctIds-Copies (x ∷ xs) d = (
  (ground arith, (λ e. (refl, refl), none-Agrees x xs d.0)),
  All-map (λ (j : OutboxRecord) c. (later j c.0, (λ e. absurd (other_id xs j x c.0 d.0 e), c.1))) xs
      (DistinctIds-Copies xs d.1),
)
  where
    later : (j : OutboxRecord) → has_id j.id xs ≡ true → has_id j.id (x ∷ xs) ≡ true
    later j h = ground arith
