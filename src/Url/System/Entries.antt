-- ===== src/Url/System/Entries.antt =====
-- Entries of the cache (services/url-service/cache.go) that are those of a row.
use url_shortener_microservi.Prelude.{
  ◌≡◌, ◌≢◌, ◌⊎◌, Bool, ◌||◌, some_of, subst, inl, inr, refl, sym, ap, ◌∙◌, Bool-cases, true, false,
  Text, List, [], ◌∷◌, ◌++◌, map, none, some, text_eq, text_eq_iff, arith,
}
use url_shortener_microservi.Url.Db.{
  UrlRecord, taken, stored, micro_of, deactivates, deactivate_row,
}
use url_shortener_microservi.Url.Db.Unique.{
  Unique, find_code, find_code-map, find_code-append, find_code-append_other, find_code_free,
  find_code-map_other,
}
use url_shortener_microservi.Url.Shorten.{
  CachedUrl, Order, Attempt, url_record, ShortenResponse, Fill,
}
use url_shortener_microservi.Url.Shorten.Atomic
use url_shortener_microservi.Url.Redirect.{cached_of}

-- An entry says what a row says, as of an active one; its time of expiry is that of the row, or becomes
-- so when it is kept in microseconds.
pub record Agrees (cached : CachedUrl) (row : UrlRecord) : Type 0 where
  pub original_url : cached.original_url ≡ row.original_url
  pub user_id : cached.user_id ≡ row.user_id
  pub user_email : cached.user_email ≡ row.user_email
  pub is_active : cached.is_active ≡ true
  pub expires_at :
      (cached.expires_at ≡ row.expires_at) ⊎ (micro_of cached.expires_at ≡ row.expires_at)

-- Whether a code is one of a list.
abbrev pub listed_in : Text → List Text → Bool
listed_in code codes = some_of (text_eq code) codes

-- An entry agrees with the row of its code, which is active unless the code is one of the stale ones.
pub record Matches (stale : List Text) (code : Text) (cached : CachedUrl) (rows : List UrlRecord)
    : Type 0 where
  pub row : UrlRecord
  pub found : find_code code rows ≡ some row
  pub active : (row.is_active ≡ true) ⊎ (listed_in code stale ≡ true)
  pub same : Agrees cached row

pub Matches-append :
    (stale : List Text) (code : Text) (c : CachedUrl) (r : UrlRecord) (rows : List UrlRecord)
    → taken r rows ≡ false
    → Matches stale code c rows
    → Matches stale code c (rows ++ (r ∷ []))
Matches-append stale code c r rows free m = elim (Bool-cases (text_eq code r.short_code)) [
  | inl new ↦
      let here : code ≡ r.short_code = (text_eq_iff code r.short_code).0 new in
      absurd (
        none-ne-some (sym (ap (λ k. find_code k rows) here ∙ find_code_free r rows free) ∙ m.found))
  | inr old ↦ record {
    row = m.row;
    found = find_code-append_other r rows code old ∙ m.found;
    active = m.active;
    same = m.same;
  }
]
  where
    none-ne-some : {x : UrlRecord} → none ≡ some x → ⊥
    none-ne-some q = cc

-- A deactivation makes its code stale, and leaves the other codes alone.
pub Matches-map :
    (stale : List Text) (code gone user : Text) (c : CachedUrl) (rows : List UrlRecord)
    → Unique rows
    → some_of (deactivates gone user) rows ≡ true
    → Matches stale code c rows
    → Matches (gone ∷ stale) code c (map (deactivate_row gone user) rows)
unfolding some_of
Matches-map stale code gone user c rows unique owned m = elim (Bool-cases (text_eq code gone)) [
  | inr away ↦ record {
    row = m.row;
    found = find_code-map_other gone user code rows (λ same. differs away same) ∙ m.found;
    active = elim m.active [ inl on ↦ inl on | inr off ↦ inr (rw (away, ◌||◌) off) ];
    same = m.same;
  }
  | inl here ↦
      let same_code = (text_eq_iff code gone).0 here in
      let (r, found, its, changed) = find_code-map gone user rows unique owned in
      let same_row : m.row ≡ r =
        some-injective (sym m.found ∙ (ap (λ k. find_code k rows) same_code ∙ found)) in
      record {
        row = record r { is_active = false };
        found = ap (λ k. find_code k (map (deactivate_row gone user) rows)) same_code ∙ changed;
        active = inr (rw (here, ◌||◌) refl);
        same = Agrees-off c r (subst (Agrees c) same_row m.same);
      }
]
  where
    differs : text_eq code gone ≡ false → code ≡ gone → ⊥
    differs away same = true-ne-false (sym ((text_eq_iff code gone).1 same) ∙ away)
      where
        true-ne-false : true ≡ false → ⊥
        true-ne-false q = cc

    some-injective : {x y : UrlRecord} → some x ≡ some y → x ≡ y
    some-injective q = cc

    Agrees-off :
        (x : CachedUrl) (r : UrlRecord) → Agrees x r → Agrees x (record r { is_active = false })
    Agrees-off x r a = record {
      original_url = a.original_url;
      user_id = a.user_id;
      user_email = a.user_email;
      is_active = a.is_active;
      expires_at = a.expires_at;
    }

listed_in-drop :
    (code gone : Text) (before after : List Text)
    → text_eq code gone ≡ false
    → listed_in code (before ++ (gone ∷ after)) ≡ listed_in code (before ++ after)
unfolding some_of
listed_in-drop code gone [] after away = rw (away, ◌||◌) refl
listed_in-drop code gone (k ∷ before) after away =
    ap (λ b. text_eq code k || b) (listed_in-drop code gone before after away)

-- A code that is no longer stale, for an entry of another one.
pub Matches-fresh :
    (code gone : Text) (before after : List Text) (c : CachedUrl) (rows : List UrlRecord)
    → code ≢ gone
    → Matches (before ++ (gone ∷ after)) code c rows
    → Matches (before ++ after) code c rows
Matches-fresh code gone before after c rows n m = record {
  row = m.row;
  found = m.found;
  active = elim m.active [
    | inl on ↦ inl on
    | inr off ↦ inr (sym (listed_in-drop code gone before after away) ∙ off)
  ];
  same = m.same;
}
  where
    away : text_eq code gone ≡ false
    away = ground (arith, text_eq_iff code gone)

-- The entry of a row that is active.
pub Agrees-cached_of : (r : UrlRecord) → r.is_active ≡ true → Agrees (cached_of r) r
unfolding cached_of
Agrees-cached_of r on = record {
  original_url = refl;
  user_id = refl;
  user_email = refl;
  is_active = on;
  expires_at = inl refl;
}

pub Matches-Created :
    (stale : List Text) (o : Order) (a : Attempt) (resp : ShortenResponse) (fill : Fill)
    (rows : List UrlRecord)
    → taken (stored (url_record o a)) rows ≡ false
    → Atomic.Created o a resp fill
    → Matches stale fill.code fill.cached (rows ++ (stored (url_record o a) ∷ []))
unfolding url_record
Matches-Created stale o a resp fill rows free made = record {
  row = stored (url_record o a);
  found =
      ap (λ k. find_code k (rows ++ (stored (url_record o a) ∷ []))) made.cached_code
      ∙ find_code-append (stored (url_record o a)) rows free;
  active = inl refl;
  same = record {
    original_url = made.cached_target;
    user_id = made.cached_user_id;
    user_email = made.cached_user_email;
    is_active = made.cached_active;
    expires_at = inr (ap micro_of made.cached_expiry);
  };
}
