-- ===== src/Url/Db/Order.antt =====
-- ORDER BY id DESC in the listing of services/url-service/store.go.
use url_shortener_microservi.Prelude.{
  ◌<◌, ◌≡◌, ◌≢◌, refl, ◌∙◌, Bool, List, [], ◌∷◌, keep, All, All-keep, All-map, ltb, arith,
  Bool-cases, inl, inr, if◌then◌else◌,
}
use url_shortener_microservi.Url.Db.{UrlRecord, place, order_by_id_desc}

-- The ids fall from each row to those behind it.
abbrev pub Falls : List UrlRecord → Type 0
Falls [] = Unit
Falls (r ∷ rs) = All (λ x. x.id < r.id) rs × Falls rs

-- No two rows have one id.
abbrev pub DistinctIds : List UrlRecord → Type 0
DistinctIds [] = Unit
DistinctIds (r ∷ rs) = All (λ x. x.id ≢ r.id) rs × DistinctIds rs

place-All {ℓ} :
    (P : UrlRecord → Type ℓ) (r : UrlRecord) (xs : List UrlRecord)
    → P r
    → All P xs
    → All P (place r xs)
unfolding place
place-All P r [] h k = (h, tt)
place-All P r (x ∷ xs) h k = elim (Bool-cases (ltb r.id x.id)) [
  | inl t ↦ rw t (k.0, place-All P r xs h k.1)
  | inr f ↦ rw f (h, k)
]

order-All {ℓ} :
    (P : UrlRecord → Type ℓ) (xs : List UrlRecord) → All P xs → All P (order_by_id_desc xs)
unfolding order_by_id_desc
order-All P [] h = tt
order-All P (x ∷ xs) h = place-All P x (order_by_id_desc xs) h.0 (order-All P xs h.1)

place-Falls :
    (r : UrlRecord) (xs : List UrlRecord)
    → All (λ x. x.id ≢ r.id) xs
    → Falls xs
    → Falls (place r xs)
unfolding place
place-Falls r [] d h = (tt, tt)
place-Falls r (x ∷ xs) d h = elim (Bool-cases (ltb r.id x.id)) [
  | inl t ↦ rw t (place-All (λ y. y.id < x.id) r xs (ground arith) h.0, place-Falls r xs d.1 h.1)
  | inr f ↦
      let lower : x.id < r.id = ground (arith, d.0) in
      rw f ((lower, All-map (λ y l. omega arith) xs h.0), h)
]

-- Sorted rows with distinct ids fall.
pub order-Falls : (xs : List UrlRecord) → DistinctIds xs → Falls (order_by_id_desc xs)
unfolding order_by_id_desc
order-Falls [] d = tt
order-Falls (x ∷ xs) d =
    place-Falls x (order_by_id_desc xs) (order-All (λ y. y.id ≢ x.id) xs d.0) (order-Falls xs d.1)

pub keep-DistinctIds :
    (p : UrlRecord → Bool) (xs : List UrlRecord) → DistinctIds xs → DistinctIds (keep p xs)
unfolding keep
keep-DistinctIds p [] d = tt
keep-DistinctIds p (x ∷ xs) d = elim (Bool-cases (p x)) [
  | inl t ↦ rw t (All-keep (λ y. y.id ≢ x.id) p xs d.0, keep-DistinctIds p xs d.1)
  | inr f ↦ rw f (keep-DistinctIds p xs d.1)
]

pub keep-Falls : (p : UrlRecord → Bool) (xs : List UrlRecord) → Falls xs → Falls (keep p xs)
unfolding keep
keep-Falls p [] d = tt
keep-Falls p (x ∷ xs) d = elim (Bool-cases (p x)) [
  | inl t ↦ rw t (All-keep (λ y. y.id < x.id) p xs d.0, keep-Falls p xs d.1)
  | inr f ↦ rw f (keep-Falls p xs d.1)
]

-- A row above all others is put in front.
place-front :
    (r : UrlRecord) (xs : List UrlRecord) → All (λ x. x.id < r.id) xs → place r xs ≡ r ∷ xs
unfolding place
place-front r [] h = refl
place-front r (x ∷ xs) h = ground (arith, h.0)

keep-place :
    (p : UrlRecord → Bool) (r : UrlRecord) (xs : List UrlRecord)
    → All (λ x. x.id ≢ r.id) xs
    → Falls xs
    → keep p (place r xs) ≡ (if p r then place r (keep p xs) else keep p xs)
unfolding place keep
keep-place p r [] d h = refl
keep-place p r (x ∷ xs) d h = elim (Bool-cases (ltb r.id x.id)) [
  | inl t ↦ ground (arith, keep-place p r xs d.1 h.1)
  | inr f ↦
      let lower : x.id < r.id = ground (arith, d.0) in
      let all_lower : All (λ y. y.id < r.id) (x ∷ xs) =
        (lower, All-map (λ y l. omega arith) xs h.0) in
      ground
        (arith, place-front r (keep p (x ∷ xs)) (All-keep (λ y. y.id < r.id) p (x ∷ xs) all_lower))
]

-- Filtering and sorting commute.
pub keep-order :
    (p : UrlRecord → Bool) (xs : List UrlRecord)
    → DistinctIds xs
    → keep p (order_by_id_desc xs) ≡ order_by_id_desc (keep p xs)
unfolding order_by_id_desc keep
keep-order p [] d = refl
keep-order p (x ∷ xs) d =
    keep-place p x (order_by_id_desc xs) (order-All (λ y. y.id ≢ x.id) xs d.0) (order-Falls xs d.1)
    ∙ ground (arith, keep-order p xs d.1)
