-- ===== src/Examples/Services.antt =====
-- Runs of the other services and of the outbox (services/, shared/auth/).
use url_shortener_microservi.Prelude.{
  text_eq, keep, some_of, ◌≡◌, ◌++◌, ℕ, refl, Bool, true, false, bytes, List, [], ◌∷◌, some,
}
use url_shortener_microservi.Analytics.{
  insert_event, insert_click, count_by_code, check_thresholds, check_and_publish, write_click,
  finish, exists_event, ClickEvent, Store, Faults, Draws, process_event, click_record_from_event,
}
use url_shortener_microservi.Analytics.Overlap.{process_overlapping, overlapping-counts_twice}
use url_shortener_microservi.Analytics.Counting.{Delivery, consume, IsCounted, consume-IsCounted}
use url_shortener_microservi.Analytics.Milestones.{IsEarned, consume-IsEarned}

abbrev none_at : ℕ → Bool
none_at n = false

abbrev healthy : Faults
healthy = record {
  begin = false;
  exists = false;
  dedup = false;
  click = false;
  count = false;
  has_milestone = none_at;
  milestone = none_at;
  commit = false;
}

abbrev uncommitted : Faults
uncommitted = record healthy { commit = true }

abbrev draws : Draws
draws n = (n, n)

abbrev event : ClickEvent
event = record {
  event_id = bytes "e1";
  correlation_id = [];
  short_code = bytes "0000007";
  user_id = bytes "ann";
  user_email = bytes "ann@a.b";
  ip_hash = bytes "h";
  user_agent = [];
  referer = [];
  clicked_at = 5;
}

abbrev empty : Store
empty = record { clicks = []; milestones = []; processed_events = [] }

abbrev delivery : Faults → Delivery
delivery f = record { faults = f; draws = draws; body = some event }

-- One event that fails to commit, is committed, and comes again.
abbrev deliveries : List Delivery
deliveries = delivery uncommitted ∷ delivery healthy ∷ delivery healthy ∷ []

empty-IsCounted : IsCounted empty
unfolding IsCounted
empty-IsCounted = (tt, refl)

empty-IsEarned : IsEarned empty
unfolding IsEarned
empty-IsEarned = tt

consume-IsCounted_example : IsCounted (consume deliveries empty)
consume-IsCounted_example = consume-IsCounted deliveries empty empty-IsCounted

consume-IsEarned_example : IsEarned (consume deliveries empty)
consume-IsEarned_example = consume-IsEarned deliveries empty empty-IsEarned

overlapping-counts_twice_example :
    ((process_overlapping healthy draws event empty
        (process_event healthy draws event empty).store).store.clicks
      ≡ ([] ++ click_record_from_event event ∷ []) ++ click_record_from_event event ∷ [])
    × ((process_overlapping healthy draws event empty
          (process_event healthy draws event empty).store).store.processed_events
        ≡ bytes "e1" ∷ [])
unfolding exists_event some_of process_event finish write_click check_and_publish check_thresholds
    count_by_code keep insert_click insert_event text_eq click_record_from_event process_overlapping
overlapping-counts_twice_example =
    overlapping-counts_twice healthy healthy draws draws event empty refl refl refl
