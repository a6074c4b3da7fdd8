-- ===== src/Examples/Accounts.antt =====
-- Runs of the user service, of tokens and of the outbox (services/user-service/, shared/auth/,
-- services/url-service/outbox_store.go).
use url_shortener_microservi.Prelude.{
  keep, some_of, ℕ, ◌≡◌, refl, pos, false, bytes, [], ◌∷◌, All, none, arith,
}
use url_shortener_microservi.Events.{created, UrlCreatedEvent}
use url_shortener_microservi.Auth.{Claims}
use url_shortener_microservi.Url.Db.{OutboxRecord, Db}
use url_shortener_microservi.Url.Outbox.{
  place, claimable, order_by_created_at, has_id, lock, lock_claimed, claimed, fetch_unpublished,
}
use url_shortener_microservi.Url.Outbox.Lease.{fetch_unpublished-disjoint}
use url_shortener_microservi.Url.Listing.{ListUrlsResponse}

abbrev event : UrlCreatedEvent
event = record {
  base = record {
    event_type = bytes "url.created";
    occurred_at = 1;
    correlation_id = [];
    event_id = 1;
  };
  short_code = bytes "0000007";
  original_url = bytes "http://a.b";
  user_id = bytes "u1";
  user_email = bytes "a@b.c";
  expires_at = none;
}

abbrev record_at : ℕ → OutboxRecord
record_at id = record {
  id = id;
  event_type = bytes "url.created";
  payload = created event;
  created_at = id;
  locked_until = none;
  published_at = none;
}

abbrev two_records : Db
two_records = record { urls = []; outbox = record_at 1 ∷ record_at 2 ∷ [] }

abbrev one_locked : Db
one_locked = record { urls = []; outbox = lock 10 (record_at 1) ∷ record_at 2 ∷ [] }

abbrev both_locked : Db
both_locked = record { urls = []; outbox = lock 10 (record_at 1) ∷ lock 20 (record_at 2) ∷ [] }

fetch_unpublished-disjoint_example :
    All (λ r. has_id r.id (lock 10 (record_at 1) ∷ []) ≡ false) (lock 20 (record_at 2) ∷ [])
unfolding fetch_unpublished claimed lock_claimed order_by_created_at some_of keep claimable place
fetch_unpublished-disjoint_example =
    fetch_unpublished-disjoint 1 10 1 20 two_records one_locked both_locked
      (lock 10 (record_at 1) ∷ []) (lock 20 (record_at 2) ∷ []) (omega arith) refl refl

abbrev claims : Claims
claims = record {
  sub = bytes "u1";
  email = bytes "a@b.c";
  iss = bytes "url-shortener";
  iat = pos 5;
  exp = pos 105;
}

abbrev no_rows_listed : ListUrlsResponse
no_rows_listed = record { urls = []; next_cursor = none; has_more = false }
