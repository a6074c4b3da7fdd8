-- ===== src/Examples/Fixtures.antt =====
-- A database and the other instances that the runs of url-service share (services/url-service/).
use url_shortener_microservi.Prelude.{
  ℕ, ◌+◌, ◌≡◌, refl, ap, true, Text, bytes, [], ◌∷◌, Option, none, some, Result, ok, err,
}
use url_shortener_microservi.Url.Db.{UrlRecord, Db, DbError, BeginFunc}
use url_shortener_microservi.Url.Shorten.{ParsedUrl, Attempt}
use url_shortener_microservi.Url.Deactivate.{Draws}

-- A database whose transactions commit if their function succeeds.
unfoldable pub run_in : (Db → Result DbError Db) → Db → Result DbError Db → Option DbError × Db
run_in f db (ok db') = (none, db')
run_in f db (err e) = (some e, db)

pub run_in-commits :
    (f : Db → Result DbError Db) (db : Db) (r : Result DbError Db)
    → (run_in f db r).0 ≡ none
    → r ≡ ok (run_in f db r).1
unfolding run_in
run_in-commits f db (ok db') h = refl
run_in-commits f db (err e) h = cc

pub run_in-rolls_back :
    (f : Db → Result DbError Db) (db : Db) (r : Result DbError Db) (e : DbError)
    → (run_in f db r).0 ≡ some e
    → (run_in f db r).1 ≡ db
unfolding run_in
run_in-rolls_back f db (ok db') e h = cc
run_in-rolls_back f db (err x) e h = refl

unfoldable pub reliable_run : ℕ → (Db → Result DbError Db) → Db → Option DbError × Db
unfolding run_in
reliable_run n f db = run_in f db (f db)

pub reliable-commits :
    (n : ℕ) (f : Db → Result DbError Db) (db : Db)
    → (reliable_run n f db).0 ≡ none
    → f db ≡ ok (reliable_run n f db).1
unfolding reliable_run
reliable-commits n f db h = run_in-commits f db (f db) h

pub reliable-rolls_back :
    (n : ℕ) (f : Db → Result DbError Db) (db : Db) (e : DbError)
    → (reliable_run n f db).0 ≡ some e
    → (reliable_run n f db).1 ≡ db
unfolding reliable_run
reliable-rolls_back n f db e h = run_in-rolls_back f db (f db) e h

pub reliable-passes :
    (n : ℕ) (f : Db → Result DbError Db) (db : Db) (e : DbError)
    → true ≡ true
    → f db ≡ err e
    → (reliable_run n f db).0 ≡ some e
unfolding reliable_run run_in
reliable-passes n f db e b h = ap (λ r. (run_in f db r).0) h

abbrev pub reliable : BeginFunc
reliable = record {
  run = reliable_run;
  begins = λ n. true;
  commits = reliable-commits;
  rolls_back = reliable-rolls_back;
  passes = reliable-passes;
}

abbrev pub stored : UrlRecord
stored = record {
  id = 7;
  short_code = bytes "0000007";
  original_url = bytes "http://a.b";
  user_id = bytes "ann";
  user_email = bytes "ann@a.b";
  created_at = 1;
  expires_at = some 50;
  is_active = true;
}

abbrev pub one_row : Db
one_row = record { urls = stored ∷ []; outbox = [] }

abbrev pub draws : Draws
draws = record { event_id = 1; outbox_id = 2; now = 20; update_fault = none; outbox_fault = none }

abbrev pub sha : Text → Text
sha t = t

abbrev pub parsed : Text → Option ParsedUrl
parsed t = some (record { scheme = bytes "http"; host = bytes "a.b" })

abbrev pub attempt : ℕ → Attempt
attempt i = record {
  random = 1 ∷ 2 ∷ 3 ∷ 4 ∷ 5 ∷ 6 ∷ 7 ∷ i ∷ [];
  url_id = 10 + i;
  event_id = 20 + i;
  outbox_id = 30 + i;
  now = 100;
  insert_fault = none;
  outbox_fault = none;
}
