-- ===== src/Examples/Statistics.antt =====
-- Runs of the queries and handlers of analytics-service (services/analytics-service/).

use mathlib.Core.List.{Perm}
use mathlib.Core.List.Perm
use url_shortener_microservi.Prelude.{
  text_eq, keep, ℕ, ◌*◌, ◌≤◌, ◌≡◌, refl, false, Text, bytes, List, [], ◌∷◌, All, All-map, Option,
  none, some, leb, if◌then◌else◌, if-both, if-cases, arith,
}
use url_shortener_microservi.Analytics.{count_by_code, ClickRecord, Store}
use url_shortener_microservi.Analytics.Stats.{
  date_trunc, count_period, group_by_period, time_line_buckets, count_referer, group_by_referer,
  top_referers, count_by_code_since, load_stats, one_day, RefererCount, StatsResponse,
  TimeLineResponse, Queries, interval_unit, stats, time_line,
}
use url_shortener_microservi.Analytics.Stats.Summary.{
  Descends, IsOrderBy, IsConsistent, SeesOne, stats-IsConsistent,
}
use url_shortener_microservi.Analytics.Stats.Timeline.{IsTimeline, time_line-IsTimeline}

-- Insertion sort, the greatest count first.
insert : RefererCount → List RefererCount → List RefererCount
insert g [] = g ∷ []
insert g (h ∷ hs) = let rest = insert g hs in if leb h.count g.count then g ∷ h ∷ hs else h ∷ rest

sort : List RefererCount → List RefererCount
unfolding insert
sort [] = []
sort (g ∷ gs) = insert g (sort gs)

insert-All :
    (P : RefererCount → Type 0) (g : RefererCount) (hs : List RefererCount)
    → P g
    → All P hs
    → All P (insert g hs)
unfolding insert
insert-All P g [] p h = (p, tt)
insert-All P g (x ∷ xs) p h =
    if-both (All P) (leb x.count g.count) (p, h) (h.0, insert-All P g xs p h.1)

insert-Descends : (g : RefererCount) (hs : List RefererCount) → Descends hs → Descends (insert g hs)
unfolding insert
insert-Descends g [] d = (tt, tt)
insert-Descends g (h ∷ hs) d =
    if-cases Descends (leb h.count g.count)
      (λ t. ((ground arith, All-map (λ x l. ground arith) hs d.0), d))
      (λ f. (insert-All (λ x. x.count ≤ h.count) g hs (ground arith) d.0, insert-Descends g hs d.1))

sort-Descends : (gs : List RefererCount) → Descends (sort gs)
unfolding sort
sort-Descends [] = tt
sort-Descends (g ∷ gs) = insert-Descends g (sort gs) (sort-Descends gs)

insert-perm : (g : RefererCount) (hs : List RefererCount) → Perm (insert g hs) (g ∷ hs)
unfolding insert
insert-perm g [] = Perm.refl (g ∷ [])
insert-perm g (h ∷ hs) =
    if-both (λ l. Perm l (g ∷ h ∷ hs)) (leb h.count g.count) (Perm.refl (g ∷ h ∷ hs))
      (Perm.trans (Perm.cons h (insert-perm g hs)) (Perm.swap g h hs))

sort-perm : (gs : List RefererCount) → Perm (sort gs) gs
unfolding sort
sort-perm [] = Perm.refl []
sort-perm (g ∷ gs) = Perm.trans (insert-perm g (sort gs)) (Perm.cons g (sort-perm gs))

abbrev click : ℕ → Option Text → ClickRecord
click t referer = record {
  short_code = bytes "0000007";
  clicked_at = t;
  ip_hash = bytes "h";
  user_agent = [];
  referer = referer;
}

abbrev seen : Store
seen = record {
  clicks = click 1 none ∷ click (one_day * 9) (some (bytes "x")) ∷ [];
  milestones = [];
  processed_events = [];
}

abbrev queries : Queries
queries = record {
  total = seen;
  day = seen;
  week = seen;
  referers = seen;
  total_fails = false;
  day_fails = false;
  week_fails = false;
  referers_fails = false;
}

sort-IsOrderBy : IsOrderBy sort
sort-IsOrderBy = record { permutes = sort-perm; descends = sort-Descends }

queries-SeesOne : SeesOne queries seen
queries-SeesOne = record { total = refl; day = refl; week = refl; referers = refl }

abbrev statistics : StatsResponse
statistics = record {
  short_code = bytes "0000007";
  total_clicks = 2;
  clicks_last_24h = 1;
  clicks_last_7d = 1;
  top_referers = record { referer = bytes "x"; count = 1 } ∷ [];
}

stats-IsConsistent_example : (◌≡◌ {A = ℕ} 200 200) × IsConsistent (bytes "0000007") statistics seen
unfolding stats load_stats count_by_code count_by_code_since top_referers keep sort text_eq
    group_by_referer count_referer
stats-IsConsistent_example =
    stats-IsConsistent sort (one_day * 10) (bytes "0000007") queries seen 200 statistics
      sort-IsOrderBy queries-SeesOne refl

abbrev timeline : TimeLineResponse
timeline = record {
  short_code = bytes "0000007";
  interval = bytes "day";
  points = record { period = 0; clicks = 1 } ∷ record { period = one_day * 9; clicks = 1 } ∷ [];
}

time_line-IsTimeline_example :
    (◌≡◌ {A = ℕ} 200 200)
    × ((unit : ℕ) × (interval_unit (bytes "day") ≡ some unit)
        × IsTimeline (bytes "0000007") unit seen timeline.points)
unfolding time_line interval_unit text_eq time_line_buckets group_by_period count_period date_trunc
time_line-IsTimeline_example =
    time_line-IsTimeline (bytes "0000007") (bytes "day") false seen 200 timeline refl
