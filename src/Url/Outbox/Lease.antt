-- ===== src/Url/Outbox/Lease.antt =====
-- What the lease of FetchUnpublished (services/url-service/outbox_store.go) guarantees.
use url_shortener_microservi.Prelude.{
  ℕ, zero, suc, ◌+◌, ◌≤◌, ◌≡◌, refl, ap, subst, ◌∙◌, Bool, true, false, ◌&&◌, ◌||◌, List, [], ◌∷◌,
  map, take, keep, some_of, All, All-map, none, Result, ok, ltb, ◌==◌, if◌then◌else◌, if-both,
  arith, Bool-cases, inl, inr,
}
use url_shortener_microservi.Url.Db.{OutboxRecord, Db, DbError}
use url_shortener_microservi.Url.Outbox.{
  lease, unpublished, claimable, place, order_by_created_at, claimed, lock, has_id, lock_claimed,
  fetch_unpublished,
}

module _ (P : OutboxRecord → Type 0) where
  take-All : (n : ℕ) (rs : List OutboxRecord) → All P rs → All P (take n rs)
  take-All zero rs h = tt
  take-All (suc n) [] h = tt
  take-All (suc n) (r ∷ rs) h = (h.0, take-All n rs h.1)

  place-All : (r : OutboxRecord) (rs : List OutboxRecord) → P r → All P rs → All P (place r rs)
  unfolding place
  place-All r [] p h = (p, tt)
  place-All r (x ∷ xs) p h =
      if-both (All P) (ltb x.created_at r.created_at) (h.0, place-All r xs p h.1) (p, h)

  order-All : (rs : List OutboxRecord) → All P rs → All P (order_by_created_at rs)
  unfolding order_by_created_at
  order-All [] h = tt
  order-All (r ∷ rs) h = place-All r (order_by_created_at rs) h.0 (order-All rs h.1)

  pub claimed-All :
      (limit now : ℕ) (db : Db)
      → All P (keep (claimable now) db.outbox)
      → All P (claimed limit now db)
  unfolding claimed
  claimed-All limit now db h =
      take-All limit (order_by_created_at (keep (claimable now) db.outbox))
        (order-All (keep (claimable now) db.outbox) h)

leased :
    (later now : ℕ) (b : Bool) → later ≤ now + lease → (b && ltb (now + lease) later) ≡ true → ⊥
leased later now true h c = ground arith
leased later now false h c = cc

by_claim :
    (now later : ℕ) (rs : List OutboxRecord) (r : OutboxRecord) (b : Bool)
    → later ≤ now + lease
    → has_id r.id rs ≡ b
    → claimable later (if b then lock now r else r) ≡ true
    → has_id (if b then lock now r else r).id rs ≡ false
unfolding claimable
by_claim now later rs r true h e c = absurd (leased later now (unpublished r.published_at) h c)
by_claim now later rs r false h e c = e

-- A row that was claimed and locked is not claimable while the lease lasts.
lock_claimed-unclaimable :
    (now later : ℕ) (rs : List OutboxRecord) (r : OutboxRecord)
    → later ≤ now + lease
    → claimable later (lock_claimed now rs r) ≡ true
    → has_id (lock_claimed now rs r).id rs ≡ false
unfolding claimable lock_claimed
lock_claimed-unclaimable now later rs r h c = by_claim now later rs r (has_id r.id rs) h refl c

map-keep-All :
    (now later : ℕ) (rs xs : List OutboxRecord)
    → later ≤ now + lease
    → All (λ r. has_id r.id rs ≡ false) (keep (claimable later) (map (lock_claimed now rs) xs))
unfolding keep
map-keep-All now later rs [] h = tt
map-keep-All now later rs (x ∷ xs) h =
    let rest = map-keep-All now later rs xs h in
    elim (Bool-cases (claimable later (lock_claimed now rs x))) [
      | inl c ↦ rw (c, if◌then◌else◌) (lock_claimed-unclaimable now later rs x h c, rest)
      | inr c ↦ rw (c, if◌then◌else◌) rest
    ]

-- The ids do not change by locking.
has_id-lock : (now id : ℕ) (rs : List OutboxRecord) → has_id id (map (lock now) rs) ≡ has_id id rs
unfolding some_of
has_id-lock now id [] = refl
has_id-lock now id (r ∷ rs) = ap (λ b. r.id == id || b) (has_id-lock now id rs)

ok-injective :
    {x y : List OutboxRecord} {r : Result DbError (List OutboxRecord)} → r ≡ ok x → r ≡ ok y → x ≡ y
ok-injective h k = cc

lock-All :
    (later : ℕ) (base rs : List OutboxRecord)
    → All (λ r. has_id r.id base ≡ false) rs
    → All (λ r. has_id r.id base ≡ false) (map (lock later) rs)
lock-All later base [] h = tt
lock-All later base (r ∷ rs) h = (h.0, lock-All later base rs h.1)

-- What a poll after another claims has none of the ids that the other claimed.
claimed-disjoint :
    (limit now limit' later : ℕ) (db : Db)
    → later ≤ now + lease
    → All
        (λ r. has_id r.id (claimed limit now db) ≡ false)
        (claimed limit' later (fetch_unpublished none limit now db).1)
unfolding fetch_unpublished
claimed-disjoint limit now limit' later db h =
    claimed-All (λ r. has_id r.id (claimed limit now db) ≡ false) limit' later _
      (map-keep-All now later (claimed limit now db) db.outbox h)

-- Two polls one after the other, the second at most 30 seconds after the first, never return a record
-- of the same id.
pub fetch_unpublished-disjoint :
    (limit now limit' later : ℕ) (db db' db'' : Db) (rs rs' : List OutboxRecord)
    → later ≤ now + lease
    → fetch_unpublished none limit now db ≡ (ok rs, db')
    → fetch_unpublished none limit' later db' ≡ (ok rs', db'')
    → All (λ r. has_id r.id rs ≡ false) rs'
unfolding fetch_unpublished
fetch_unpublished-disjoint limit now limit' later db db' db'' rs rs' h first second =
    let base = claimed limit now db in
    let same : map (lock now) base ≡ rs = ok-injective refl (ap (λ p. p.0) first) in
    let after : (fetch_unpublished none limit now db).1 ≡ db' = ap (λ p. p.1) first in
    let fetched : map (lock later) (claimed limit' later db') ≡ rs' =
      ok-injective refl (ap (λ p. p.0) second) in
    let disjoint : All (λ r. has_id r.id base ≡ false) (claimed limit' later db') =
      subst (λ d. All (λ r. has_id r.id base ≡ false) (claimed limit' later d)) after
        (claimed-disjoint limit now limit' later db h) in
    let apart : (r : OutboxRecord) → has_id r.id base ≡ false → has_id r.id rs ≡ false =
      λ r q. subst (λ l. has_id r.id l ≡ false) same (has_id-lock now r.id base ∙ q) in
    subst (All (λ r. has_id r.id rs ≡ false)) fetched
      (All-map apart _ (lock-All later base (claimed limit' later db') disjoint))
