-- ===== src/Url/Listing/Pages.antt =====
-- Following the cursors of GetUserUrls (services/url-service/service.go, store.go).
use url_shortener_microservi.Prelude.{
  ℕ, zero, suc, ◌+◌, ◌≤◌, ◌<◌, ◌≡◌, refl, sym, ap, ◌∙◌, Bool, true, false, ◌&&◌, Text, List, [],
  ◌∷◌, ◌++◌, length, take, keep, keep-keep, keep-All, keep-false, All, All-map, Option, length-take,
  take-take, take-all, length-append, keep-passes, subst, dec_lt, ◌⊎◌, lt→ltb, none, some, Result,
  ok, err, ltb, arith, inl, inr,
}
use url_shortener_microservi.Url.Db.{
  UrlRecord, Db, listed, order_by_id_desc, before_cursor, find_by_user_id,
}
use url_shortener_microservi.Url.Db.Order.{
  Falls, keep-Falls, DistinctIds, order-Falls, keep-DistinctIds, keep-order,
}
use url_shortener_microservi.Url.Shorten.{HttpError}
use url_shortener_microservi.Url.Listing.{ListUrlsResponse, last_id, page, get_user_urls}

-- Every URL of the user that is active and unexpired, with the highest id first.
unfoldable pub all_listed : Text → ℕ → Db → List UrlRecord
all_listed user now db = order_by_id_desc (keep (listed user none now) db.urls)

-- What is left behind a cursor.
abbrev below : Option ℕ → List UrlRecord → List UrlRecord
below after = keep (λ r. before_cursor after r.id)

abbrev rows_of : Result HttpError ListUrlsResponse → List UrlRecord
rows_of (ok p) = p.urls
rows_of (err e) = []

abbrev cursor_of : Result HttpError ListUrlsResponse → Option ℕ
cursor_of (ok p) = p.next_cursor
cursor_of (err e) = none

-- The URLs of a page, and those of the pages behind its cursor if it has one.
abbrev follow_page : Result HttpError ListUrlsResponse → (ℕ → List UrlRecord) → List UrlRecord
follow_page answer next = elim (cursor_of answer) [
  | none ↦ rows_of answer
  | some c ↦ rows_of answer ++ next c
]

-- The URLs on the pages that a client gets that follows the cursors up to a page without one, or for
-- as many pages as `fuel` says.
pub follow : ℕ → Option ℕ → ℕ → Text → ℕ → Db → List UrlRecord
follow zero after limit user now db = []
follow (suc fuel) after limit user now db =
    follow_page (get_user_urls none user after limit now db)
      (λ c. follow fuel (some c) limit user now db)

-- The query behind a cursor is the part of the whole list behind it.
query-below :
    (user : Text) (after : Option ℕ) (now : ℕ) (db : Db)
    → DistinctIds db.urls
    → order_by_id_desc (keep (listed user after now) db.urls) ≡ below after (all_listed user now db)
unfolding all_listed listed
query-below user after now db d =
    ap order_by_id_desc (
      sym (
        keep-keep (λ r. before_cursor after r.id) (listed user none now) (listed user after now)
          db.urls (λ x. ground arith)))
    ∙ sym (
        keep-order (λ r. before_cursor after r.id) (keep (listed user none now) db.urls)
          (keep-DistinctIds (listed user none now) db.urls d))

keep-behind :
    (c : ℕ) (r : UrlRecord) (rs : List UrlRecord)
    → c ≤ r.id
    → below (some c) (r ∷ rs) ≡ below (some c) rs
keep-behind c r rs h = keep-false (λ x. before_cursor (some c) x.id) r rs (ground arith)

keep-rest : (r : UrlRecord) (rs : List UrlRecord) → Falls (r ∷ rs) → below (some r.id) rs ≡ rs
keep-rest r rs f =
    keep-All (λ x. before_cursor (some r.id) x.id) rs (All-map (λ x l. lt→ltb x.id r.id l) rs f.0)

-- Behind the last of the first n + 1 rows are the other rows, and that last is no higher than they.
last-drop :
    (n : ℕ) (r : UrlRecord) (rs : List UrlRecord)
    → Falls (r ∷ rs)
    → n < length rs
    → (c : ℕ) × (last_id (take (suc n) (r ∷ rs)) ≡ some c)
      × (c ≤ r.id)
      × (take (suc n) (r ∷ rs) ++ below (some c) (r ∷ rs) ≡ r ∷ rs)
unfolding last_id
last-drop n r [] f h = absurd (omega arith)
last-drop zero r (s ∷ rs) f h = (
  r.id,
  refl,
  omega arith,
  ap (λ l. r ∷ l) (keep-behind r.id r (s ∷ rs) (omega arith) ∙ keep-rest r (s ∷ rs) f),
)
last-drop (suc n) r (s ∷ rs) f h =
    let (c, last, low, whole) = last-drop n s rs f.1 (omega arith) in
    (
      c,
      last,
      omega (arith, f.0.0),
      ap (λ l. r ∷ l)
          (ap (λ l. take (suc n) (s ∷ rs) ++ l) (keep-behind c r (s ∷ rs) (omega (arith, f.0.0)))
            ∙ whole),
    )

page-more :
    (limit : ℕ) (rs : List UrlRecord)
    → limit < length rs
    → page limit (take (limit + 1) rs)
      ≡ record { urls = take limit rs; next_cursor = last_id (take limit rs); has_more = true }
unfolding page
page-more limit rs h =
    let more : ltb limit (length (take (limit + 1) rs)) ≡ true =
      lt→ltb _ _ (omega (arith, length-take (limit + 1) rs)) in
    let same : take limit (take (limit + 1) rs) ≡ take limit rs =
      ap (λ m. take limit (take m rs)) {y = suc limit} (omega arith) ∙ take-take limit rs in
    rw more (
      ap (λ (l : List UrlRecord). record { urls = l; next_cursor = last_id l; has_more = true })
        same)

page-last :
    (limit : ℕ) (rs : List UrlRecord)
    → length rs ≤ limit
    → page limit (take (limit + 1) rs) ≡ record { urls = rs; next_cursor = none; has_more = false }
unfolding page
page-last limit rs h = rw (take-all (limit + 1) rs (omega arith)) (ground arith)

cursor_implied :
    (after : Option ℕ) (c m x : ℕ)
    → before_cursor after m ≡ true
    → c ≤ m
    → (before_cursor (some c) x && before_cursor after x) ≡ before_cursor (some c) x
cursor_implied none c m x under low = ground arith
cursor_implied (some a) c m x under low = ground arith

List-cases {ℓ} : {A : Type ℓ} (xs : List A) → (xs ≡ []) ⊎ (0 < length xs)
List-cases [] = inl refl
List-cases (x ∷ xs) = inr (omega arith)

All-true {ℓ} : {A : Type ℓ} (xs : List A) → All (λ x. ◌≡◌ {A = Bool} true true) xs
All-true [] = tt
All-true (x ∷ xs) = (refl, All-true xs)

module _ (n : ℕ) (user : Text) (now : ℕ) (db : Db) (distinct : DistinctIds db.urls) where
  abbrev whole_list : List UrlRecord
  whole_list = all_listed user now db

  query :
      (after : Option ℕ)
      → get_user_urls none user after (suc n) now db
        ≡ ok (page (suc n) (take (suc n + 1) (below after whole_list)))
  unfolding get_user_urls find_by_user_id
  query after =
      ap (λ l. ok (page (suc n) (take (suc n + 1) l))) (query-below user after now db distinct)

  below-cursor :
      (after : Option ℕ) (c m : ℕ)
      → before_cursor after m ≡ true
      → c ≤ m
      → below (some c) (below after whole_list) ≡ below (some c) whole_list
  below-cursor after c m under low =
      keep-keep (λ r. before_cursor (some c) r.id) (λ r. before_cursor after r.id)
        (λ r. before_cursor (some c) r.id) whole_list (λ x. cursor_implied after c m x.id under low)

  follow-page :
      (fuel : ℕ) (after : Option ℕ) {p : ListUrlsResponse}
      → page (suc n) (take (suc n + 1) (below after whole_list)) ≡ p
      → follow (suc fuel) after (suc n) user now db
        ≡ follow_page (ok p) (λ c. follow fuel (some c) (suc n) user now db)
  unfolding follow
  follow-page fuel after e =
      ap (λ a. follow_page a (λ c. follow fuel (some c) (suc n) user now db))
        (query after ∙ ap ok e)

  follow-below :
      (fuel : ℕ) (after : Option ℕ) (rs : List UrlRecord)
      → below after whole_list ≡ rs
      → Falls rs
      → 0 < length rs
      → length rs ≤ fuel
      → follow fuel after (suc n) user now db ≡ rs
  follow-below fuel after [] e f z h = absurd (omega arith)
  follow-below zero after (r ∷ rs) e f z h = absurd (omega arith)
  follow-below (suc fuel) after (r ∷ rs) e f z h = elim (dec_lt n (length rs)) [
    | yes more ↦
        let (c, last, low, whole) = last-drop n r rs f more in
        let rest = below (some c) (r ∷ rs) in
        let under : before_cursor after r.id ≡ true =
          (subst (λ l. All (λ x. before_cursor after x.id ≡ true) l) e
            (keep-passes (λ x. before_cursor after x.id) whole_list)).0 in
        let lengths : length (take (suc n) (r ∷ rs)) + length rest ≡ suc (length rs) =
          sym (length-append (take (suc n) (r ∷ rs)) rest) ∙ ap length whole in
        follow-page fuel after (
          ap (λ l. page (suc n) (take (suc n + 1) l)) e
          ∙ page-more (suc n) (r ∷ rs) (omega arith)
          ∙ ap
              (λ (k : Option ℕ). record {
                urls = take (suc n) (r ∷ rs);
                next_cursor = k;
                has_more = true;
              })
              last)
        ∙ ap (λ l. take (suc n) (r ∷ rs) ++ l)
            (follow-below fuel (some c) rest
              (sym (below-cursor after c r.id under low) ∙ ap (below (some c)) e)
              (keep-Falls (λ x. before_cursor (some c) x.id) (r ∷ rs) f)
              (omega (arith, lengths, length-take (suc n) (r ∷ rs)))
              (omega (arith, lengths, length-take (suc n) (r ∷ rs))))
        ∙ whole
    | no last ↦
        follow-page fuel after
          (ap (λ l. page (suc n) (take (suc n + 1) l)) e ∙ page-last (suc n) (r ∷ rs) (omega arith))
  ]

  follow-empty : (fuel : ℕ) → whole_list ≡ [] → follow (suc fuel) none (suc n) user now db ≡ []
  unfolding keep
  follow-empty fuel e = follow-page fuel none (
      ap (λ l. page (suc n) (take (suc n + 1) (below none l))) e
      ∙ page-last (suc n) [] (omega arith))

  -- Pages of n + 1 URLs, followed from the first page by their cursors, give every URL of the user
  -- that is active and unexpired, each once and with the highest id first, if no two URLs have one
  -- id and at least as many pages are asked for as there are such URLs, and one.
  pub follow-all_listed :
      (fuel : ℕ) → length whole_list < fuel → follow fuel none (suc n) user now db ≡ whole_list
  follow-all_listed zero h = absurd (omega arith)
  follow-all_listed (suc fuel) h = elim (List-cases whole_list) [
    | inl empty ↦ follow-empty fuel empty ∙ sym empty
    | inr some_ ↦
        follow-below (suc fuel) none whole_list
          (keep-All (λ r. true) whole_list (All-true whole_list))
          (unfold all_listed in
            order-Falls _ (keep-DistinctIds (listed user none now) db.urls distinct))
          some_ (omega arith)
  ]
