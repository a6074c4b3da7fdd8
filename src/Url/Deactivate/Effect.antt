-- ===== src/Url/Deactivate/Effect.antt =====
-- What DeactivateURL (services/url-service/service.go) changes.
use url_shortener_microservi.Prelude.{
  ◌≡◌, ◌≢◌, refl, ap, ◌∙◌, true, false, Text, [], ◌∷◌, ◌++◌, map, some_of, Option, none, some, ok,
  err, ◌>>=◌, >>=-eq-ok, arith, Option-cases, inl, inr,
}
use url_shortener_microservi.Url.Db.{
  UrlRecord, Db, DbError, unique_violation, no_rows, other, deactivates, deactivate_row, deactivate,
  insert_event, BeginFunc,
}
use url_shortener_microservi.Url.Db.Unique.{Unique, find_code, find_code-map, find_code-map_other}
use url_shortener_microservi.Url.Shorten.{HttpError, http_error, forbidden}
use url_shortener_microservi.Url.Shorten.Atomic.{insert_event-ok}
use url_shortener_microservi.Url.Deactivate.{
  Draws, deleted_record, remove, after_remove, Deactivated, deactivate_url,
}

deactivate-ok :
    (fault : Option DbError) (code user : Text) (db db' : Db)
    → deactivate fault code user db ≡ ok db'
    → (some_of (deactivates code user) db.urls ≡ true)
      × (db'.urls ≡ map (deactivate_row code user) db.urls)
      × (db'.outbox ≡ db.outbox)
unfolding deactivate
deactivate-ok none code user db db' h = ground arith
deactivate-ok (some e) code user db db' h = cc

-- What one transaction that succeeded has written.
pub record Removed (code user email : Text) (d : Draws) (db db' : Db) : Type 0 where
  pub owned : some_of (deactivates code user) db.urls ≡ true
  pub rows : db'.urls ≡ map (deactivate_row code user) db.urls
  pub events : db'.outbox ≡ db.outbox ++ (deleted_record code user email d ∷ [])

remove-Removed :
    (code user email : Text) (d : Draws) (db db' : Db)
    → remove code user email d db ≡ ok db'
    → Removed code user email d db db'
unfolding remove
remove-Removed code user email d db db' h =
    let record_ = deleted_record code user email d in
    let (db₁, first, second) =
      >>=-eq-ok (deactivate d.update_fault code user db)
        (λ x. insert_event d.outbox_fault record_ x) h in
    let (owned, rows, same) = deactivate-ok d.update_fault code user db db₁ first in
    let (_, events, kept) = insert_event-ok d.outbox_fault record_ db₁ db' second in
    record {
      owned = owned;
      rows = kept ∙ rows;
      events = events ∙ ap (λ l. l ++ (record_ ∷ [])) same;
    }

after_remove-none : (x : Option DbError) → x ≡ none → (after_remove x).1 ≡ true
unfolding after_remove
after_remove-none none h = refl
after_remove-none (some x) h = cc

-- An error of the transaction is one of the call, and leaves the cache alone.
after_remove-some : (x : DbError) → (after_remove (some x)).1 ≡ false
unfolding after_remove
after_remove-some no_rows = refl
after_remove-some unique_violation = refl
after_remove-some other = refl

after_remove-error : (x : Option DbError) (e : HttpError) → (after_remove x).0 ≡ some e → x ≢ none
unfolding after_remove
after_remove-error none e h = λ q. cc
after_remove-error (some x) e h = λ q. cc

deactivate-no_rows :
    (fault : Option DbError) (code user : Text) (db : Db)
    → fault ≡ none
    → some_of (deactivates code user) db.urls ≡ false
    → deactivate fault code user db ≡ err no_rows
unfolding deactivate
deactivate-no_rows none code user db h n = rw n
deactivate-no_rows (some e) code user db h n = cc

module _ (tx : BeginFunc) (code user email : Text) (d : Draws) (db : Db) where
  abbrev pub result : Deactivated
  result = deactivate_url tx code user email d db

  success-commits : result.error ≡ none → (tx.run 0 (remove code user email d) db).0 ≡ none
  unfolding deactivate_url after_remove
  success-commits h = ground arith

  -- What a call that succeeded has written.
  pub deactivate_url-Removed : result.error ≡ none → Removed code user email d db result.db
  unfolding deactivate_url
  deactivate_url-Removed h =
      remove-Removed code user email d db _
        (tx.commits 0 (remove code user email d) db (success-commits h))

  -- If DeactivateURL succeeds, then of unique rows the one of the code was the user's and active, and
  -- has now changed its flag alone; the event of the deletion is in the outbox; and
  -- cache.Delete is called for the code, whose error is dropped, so that the entry may stay.
  pub deactivate_url-success :
      Unique db.urls
      → result.error ≡ none
      → ((r : UrlRecord) × (find_code code db.urls ≡ some r)
          × (deactivates code user r ≡ true)
          × (find_code code result.db.urls ≡ some (record r { is_active = false })))
        × (result.db.outbox ≡ db.outbox ++ (deleted_record code user email d ∷ []))
        × (result.deletes_entry ≡ true)
  unfolding deactivate_url
  deactivate_url-success u h =
      let removed = deactivate_url-Removed h in
      let (r, found, its, changed) = find_code-map code user db.urls u removed.owned in
      (
        (r, found, its, ap (find_code code) removed.rows ∙ changed),
        removed.events,
        after_remove-none _ (success-commits h),
      )

  -- If it succeeds, the rows of the other codes are as they were.
  pub deactivate_url-others :
      (away : Text)
      → result.error ≡ none
      → away ≢ code
      → find_code away result.db.urls ≡ find_code away db.urls
  deactivate_url-others away h n =
      let removed = deactivate_url-Removed h in
      ap (find_code away) removed.rows ∙ find_code-map_other code user away db.urls n

  -- If it fails, then nothing has changed: neither the database nor the cache.
  pub deactivate_url-failed :
      (e : HttpError) → result.error ≡ some e → (result.db ≡ db) × (result.deletes_entry ≡ false)
  unfolding deactivate_url
  deactivate_url-failed e h = elim (Option-cases (tx.run 0 (remove code user email d) db).0) [
    | inl no_error ↦ absurd (after_remove-error _ e h no_error)
    | inr (x, failure) ↦ (
      tx.rolls_back 0 (remove code user email d) db x failure,
      ap (λ y. (after_remove y).1) failure ∙ after_remove-some x,
    )
  ]

  -- Of a user without an active row of the code it is refused with 403, if the transaction begins and
  -- the database answers.
  pub deactivate_url-forbidden :
      d.update_fault ≡ none
      → tx.begins 0 ≡ true
      → some_of (deactivates code user) db.urls ≡ false
      → (result.error ≡ some (http_error 403 forbidden)) × (result.db ≡ db)
  unfolding deactivate_url remove after_remove
  deactivate_url-forbidden up begun none_owned =
      let stops : remove code user email d db ≡ err no_rows =
        ap (λ r. r >>= λ db'. insert_event d.outbox_fault (deleted_record code user email d) db')
          (deactivate-no_rows d.update_fault code user db up none_owned) in
      let failure = tx.passes 0 (remove code user email d) db no_rows begun stops in
      (
        ap (λ y. (after_remove y).0) failure,
        tx.rolls_back 0 (remove code user email d) db no_rows failure,
      )
