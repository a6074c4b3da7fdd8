-- ===== src/Url/Db/Unique.antt =====
-- The constraints of services/url-service/migration.sql on the rows of `urls`, and what the
-- statements of store.go make of the row of a code.
use url_shortener_microservi.Prelude.{
  ◌≡◌, ◌≢◌, refl, sym, ap₂, text_eq_refl, ◌∙◌, Bool, true, false, ◌||◌, Text, List, [], ◌∷◌, ◌++◌,
  map, some_of, find_first, All, Option, none, some, text_eq, text_eq_iff, ◌==◌, arith, Bool-cases,
  inl, inr,
}
use url_shortener_microservi.Url.Db.{UrlRecord, taken, deactivates, deactivate_row}
use url_shortener_microservi.Url.Db.Order.{DistinctIds}

-- No two rows have one code or one id.
abbrev pub Unique : List UrlRecord → Type 0
Unique [] = Unit
Unique (r ∷ rs) = (taken r rs ≡ false) × Unique rs

clash : UrlRecord → UrlRecord → Bool
clash r x = text_eq x.short_code r.short_code || x.id == r.id

clash_sym : (r x : UrlRecord) → clash r x ≡ clash x r
unfolding clash
clash_sym r x =
    ground (arith, text_eq_iff x.short_code r.short_code, text_eq_iff r.short_code x.short_code)

taken-cons : (r x : UrlRecord) (xs : List UrlRecord) → taken r (x ∷ xs) ≡ (clash r x || taken r xs)
unfolding taken some_of clash
taken-cons r x xs = refl

taken-nil : (r : UrlRecord) → taken r [] ≡ false
unfolding taken some_of
taken-nil r = refl

taken-append :
    (r x : UrlRecord) (xs : List UrlRecord)
    → taken r xs ≡ false
    → clash r x ≡ false
    → taken r (xs ++ (x ∷ [])) ≡ false
taken-append r x [] h k = taken-cons r x [] ∙ ground (arith, taken-nil r)
taken-append r x (y ∷ ys) h k =
    ground (arith, taken-cons r y (ys ++ (x ∷ [])), taken-cons r y ys, taken-append r x ys)

-- A row whose code and id are free may be added.
pub Unique-append :
    (r : UrlRecord) (rs : List UrlRecord) → Unique rs → taken r rs ≡ false → Unique (rs ++ (r ∷ []))
Unique-append r [] u t = (taken-nil r, tt)
Unique-append r (x ∷ xs) u t = (
  taken-append x r xs u.0 (ground (arith, taken-cons r x xs, clash_sym r x)),
  Unique-append r xs u.1 (ground (arith, taken-cons r x xs)),
)

clash-map :
    (code user : Text) (r x : UrlRecord)
    → clash (deactivate_row code user r) (deactivate_row code user x) ≡ clash r x
unfolding clash
clash-map code user r x = elim (Bool-cases (deactivates code user r)) [
  | inl a ↦ elim (Bool-cases (deactivates code user x)) [ inl b ↦ rw (a, b) | inr b ↦ rw (a, b) ]
  | inr a ↦ elim (Bool-cases (deactivates code user x)) [ inl b ↦ rw (a, b) | inr b ↦ rw (a, b) ]
]

-- Free ids are other ids.
free_ids : (r : UrlRecord) (rs : List UrlRecord) → taken r rs ≡ false → All (λ x. x.id ≢ r.id) rs
unfolding clash
free_ids r [] t = tt
free_ids r (x ∷ xs) t =
    (ground (arith, taken-cons r x xs), free_ids r xs (ground (arith, taken-cons r x xs)))

taken-map :
    (code user : Text) (r : UrlRecord) (xs : List UrlRecord)
    → taken (deactivate_row code user r) (map (deactivate_row code user) xs) ≡ taken r xs
taken-map code user r [] = taken-nil (deactivate_row code user r) ∙ sym (taken-nil r)
taken-map code user r (x ∷ xs) =
    taken-cons (deactivate_row code user r) (deactivate_row code user x)
      (map (deactivate_row code user) xs)
    ∙ ap₂ (λ b c. b || c) (clash-map code user r x) (taken-map code user r xs)
    ∙ sym (taken-cons r x xs)

pub Unique-map :
    (code user : Text) (rs : List UrlRecord)
    → Unique rs
    → Unique (map (deactivate_row code user) rs)
Unique-map code user [] u = tt
Unique-map code user (r ∷ rs) u = (taken-map code user r rs ∙ u.0, Unique-map code user rs u.1)

pub Unique-DistinctIds : (rs : List UrlRecord) → Unique rs → DistinctIds rs
Unique-DistinctIds [] u = tt
Unique-DistinctIds (r ∷ rs) u = (free_ids r rs u.0, Unique-DistinctIds rs u.1)

-- The row of a code among some rows.
abbrev pub find_code : Text → List UrlRecord → Option UrlRecord
find_code code = find_first (λ r. text_eq r.short_code code)

clash-false : (r x : UrlRecord) (xs : List UrlRecord) → taken r (x ∷ xs) ≡ false → clash r x ≡ false
clash-false r x xs t = ground (arith, taken-cons r x xs)

not_clash : (r x : UrlRecord) → clash r x ≡ false → text_eq x.short_code r.short_code ≡ false
unfolding clash
not_clash r x h = ground arith

deactivates-code :
    (code user : Text) (r : UrlRecord)
    → deactivates code user r ≡ true
    → text_eq r.short_code code ≡ true
unfolding deactivates
deactivates-code code user r h = ground arith

not_other :
    (code other : Text) (x : UrlRecord)
    → other ≢ code
    → text_eq x.short_code code ≡ true
    → text_eq x.short_code other ≡ false
not_other code other x n h =
    ground (arith, n, text_eq_iff x.short_code code, text_eq_iff x.short_code other)

-- A row that stands before the row of a code in unique rows has another code.
other_code :
    (code : Text) (x : UrlRecord) (xs : List UrlRecord) {r : UrlRecord}
    → find_code code xs ≡ some r
    → taken x xs ≡ false
    → text_eq x.short_code code ≡ false
unfolding find_first
other_code code x [] f t = cc
other_code code x (y ∷ ys) {r} f t = elim (Bool-cases (text_eq y.short_code code)) [
  | inl here ↦ ground (
    arith,
    not_clash x y (clash-false x y ys t),
    text_eq_iff y.short_code code,
    text_eq_iff x.short_code code,
    text_eq_iff y.short_code x.short_code,
  )
  | inr away ↦ other_code code x ys {r = r} (rw away at f) (ground (arith, taken-cons x y ys))
]

-- A new row is found by its code.
pub find_code-append :
    (r : UrlRecord) (rs : List UrlRecord)
    → taken r rs ≡ false
    → find_code r.short_code (rs ++ (r ∷ [])) ≡ some r
unfolding find_first
find_code-append r [] t = rw (text_eq_refl r.short_code)
find_code-append r (x ∷ xs) t =
    let other : text_eq x.short_code r.short_code ≡ false = not_clash r x (clash-false r x xs t) in
    rw other (find_code-append r xs (ground (arith, taken-cons r x xs)))

-- The rows of the other codes are as they were.
pub find_code-append_other :
    (r : UrlRecord) (rs : List UrlRecord) (away : Text)
    → text_eq away r.short_code ≡ false
    → find_code away (rs ++ (r ∷ [])) ≡ find_code away rs
unfolding find_first
find_code-append_other r [] away n =
    ground (arith, text_eq_iff r.short_code away, text_eq_iff away r.short_code)
find_code-append_other r (x ∷ xs) away n = ground (arith, find_code-append_other r xs away n)

-- A code that is free has no row.
pub find_code_free :
    (r : UrlRecord) (rs : List UrlRecord) → taken r rs ≡ false → find_code r.short_code rs ≡ none
unfolding find_first
find_code_free r [] t = refl
find_code_free r (x ∷ xs) t =
    let other : text_eq x.short_code r.short_code ≡ false = not_clash r x (clash-false r x xs t) in
    rw other (find_code_free r xs (ground (arith, taken-cons r x xs)))

-- What a search by code finds has the code.
pub find_code-code :
    (code : Text) (rs : List UrlRecord) (r : UrlRecord)
    → find_code code rs ≡ some r
    → r.short_code ≡ code
unfolding find_first
find_code-code code [] r h = cc
find_code-code code (x ∷ xs) r h =
    ground (arith, find_code-code code xs r, text_eq_iff x.short_code code)

-- The row of the code that was deactivated has changed its flag alone, and it was the user's and
-- active; the rows of other codes are as they were.
pub find_code-map :
    (code user : Text) (rs : List UrlRecord)
    → Unique rs
    → some_of (deactivates code user) rs ≡ true
    → (r : UrlRecord) × (find_code code rs ≡ some r)
      × (deactivates code user r ≡ true)
      × (find_code code (map (deactivate_row code user) rs) ≡ some (record r { is_active = false }))
unfolding find_first some_of
find_code-map code user [] u s = cc
find_code-map code user (x ∷ xs) u s = elim (Bool-cases (deactivates code user x)) [
  | inl t ↦
      let here : text_eq x.short_code code ≡ true = deactivates-code code user x t in
      (x, rw here, t, rw t (rw here))
  | inr f ↦
      let (r, found, its, changed) = find_code-map code user xs u.1 (rw f at s) in
      let other : text_eq x.short_code code ≡ false = other_code code x xs found u.0 in
      (r, rw other found, its, rw f (rw other changed))
]

pub find_code-map_other :
    (code user other : Text) (rs : List UrlRecord)
    → other ≢ code
    → find_code other (map (deactivate_row code user) rs) ≡ find_code other rs
unfolding find_first
find_code-map_other code user other [] n = refl
find_code-map_other code user other (x ∷ xs) n = elim (Bool-cases (deactivates code user x)) [
  | inl t ↦
      let away : text_eq x.short_code other ≡ false =
        not_other code other x n (deactivates-code code user x t) in
      rw t (rw away (find_code-map_other code user other xs n))
  | inr f ↦ rw (f, find_code-map_other code user other xs n)
]
