-- ===== src/Analytics/Stats.antt =====
-- What analytics-service answers about the clicks of a code: the queries of
-- services/analytics-service/store.go and the handlers of services/analytics-service/handler.go. Times
-- are nanoseconds since 1970-01-01 UTC.
pub mod Summary
pub mod Timeline
use url_shortener_microservi.Prelude.{
  ℕ, suc, ◌+◌, ◌-◌, ◌*◌, ◌%◌, Bool, true, false, ◌&&◌, ◌||◌, Text, bytes, List, [], ◌∷◌, length,
  take, keep, Option, none, some, text_eq, is_empty, ltb, leb, ◌==◌, if◌then◌else◌,
}
use url_shortener_microservi.Http.{Response}
use url_shortener_microservi.Analytics.{ClickRecord, Store, count_by_code}

-- oneDay, and the hour
abbrev pub one_hour : ℕ
one_hour = 3600000000000

abbrev pub one_day : ℕ
one_day = 24 * one_hour

-- statsTopReferersLimit
abbrev pub stats_top_referers_limit : ℕ
stats_top_referers_limit = 5

pub record RefererCount : Type 0 where
  pub referer : Text
  pub count : ℕ

pub record TimeLinePoint : Type 0 where
  pub period : ℕ
  pub clicks : ℕ

-- countClicksByCodeSinceSQL
unfoldable pub count_by_code_since : Text → ℕ → Store → ℕ
count_by_code_since code since s =
    length (keep (λ c. text_eq c.short_code code && leb since c.clicked_at) s.clicks)

-- One more click of a referer.
unfoldable pub count_referer : Text → List RefererCount → List RefererCount
count_referer referer [] = record { referer = referer; count = 1 } ∷ []
count_referer referer (g ∷ gs) =
    let rest = count_referer referer gs in
    if text_eq g.referer referer then record g { count = g.count + 1 } ∷ gs else g ∷ rest

-- WHERE short_code = $1 AND referer IS NOT NULL GROUP BY referer
unfoldable pub group_by_referer : Text → List ClickRecord → List RefererCount
group_by_referer code [] = []
group_by_referer code (c ∷ cs) =
    let rest = group_by_referer code cs in
    if text_eq c.short_code code
    then elim c.referer [ none ↦ rest | some referer ↦ count_referer referer rest ]
    else rest

-- topReferersSQL; `order_by` is ORDER BY cnt DESC, which leaves open how equal counts are ordered
unfoldable pub top_referers :
    (List RefererCount → List RefererCount) → Text → ℕ → Store → List RefererCount
top_referers order_by code n s = take n (order_by (group_by_referer code s.clicks))

-- date_trunc for the units `day` and `hour`, in UTC
unfoldable pub date_trunc : ℕ → ℕ → ℕ
date_trunc unit t = t - t % unit

-- One more click of a period, with the periods in ascending order.
unfoldable pub count_period : ℕ → List TimeLinePoint → List TimeLinePoint
count_period period [] = record { period = period; clicks = 1 } ∷ []
count_period period (p ∷ ps) =
    let rest = count_period period ps in
    if period == p.period
    then record p { clicks = p.clicks + 1 } ∷ ps
    else if ltb period p.period
    then record { period = period; clicks = 1 } ∷ p ∷ ps
    else p ∷ rest

-- timelineBucketsSQL
unfoldable pub group_by_period : Text → ℕ → List ClickRecord → List TimeLinePoint
group_by_period code unit [] = []
group_by_period code unit (c ∷ cs) =
    let rest = group_by_period code unit cs in
    if text_eq c.short_code code then count_period (date_trunc unit c.clicked_at) rest else rest

unfoldable pub time_line_buckets : Text → ℕ → Store → List TimeLinePoint
time_line_buckets code unit s = group_by_period code unit s.clicks

pub record StatsResponse : Type 0 where
  pub short_code : Text
  pub total_clicks : ℕ
  pub clicks_last_24h : ℕ
  pub clicks_last_7d : ℕ
  pub top_referers : List RefererCount

pub record TimeLineResponse : Type 0 where
  pub short_code : Text
  pub interval : Text
  pub points : List TimeLinePoint

-- What the four queries of loadStats meet: each sees the store at a moment of its own, and may fail.
pub record Queries : Type 0 where
  pub total : Store
  pub day : Store
  pub week : Store
  pub referers : Store
  pub total_fails : Bool
  pub day_fails : Bool
  pub week_fails : Bool
  pub referers_fails : Bool

-- loadStats; an error of the group is `none`
unfoldable pub load_stats :
    (List RefererCount → List RefererCount) → ℕ → Text → Queries → Option StatsResponse
load_stats order_by now code q =
    if (q.total_fails || q.day_fails) || (q.week_fails || q.referers_fails)
    then none
    else some (record {
      short_code = code;
      total_clicks = count_by_code code q.total;
      clicks_last_24h = count_by_code_since code (now - one_day) q.day;
      clicks_last_7d = count_by_code_since code (now - 7 * one_day) q.week;
      top_referers = top_referers order_by code stats_top_referers_limit q.referers;
    })

unfoldable pub answer_stats : Option StatsResponse → Response StatsResponse
answer_stats none = Response.write_error 500 (bytes "failed to load stats")
answer_stats (some stats_) = Response.write_json 200 stats_

-- StatsHandler.Stats
unfoldable pub stats :
    (List RefererCount → List RefererCount) → ℕ → Text → Queries → Response StatsResponse
unfolding answer_stats
stats order_by now code q =
    if is_empty code
    then Response.write_error 400 (bytes "short_code is required")
    else answer_stats (load_stats order_by now code q)

-- isValidTimeLineInterval, with the length of the interval
unfoldable pub interval_unit : Text → Option ℕ
interval_unit interval =
    if text_eq interval (bytes "day")
    then some one_day
    else if text_eq interval (bytes "hour")
    then some one_hour
    else none

unfoldable pub answer_time_line : Text → Text → Bool → Store → Option ℕ → Response TimeLineResponse
answer_time_line code interval fails s none =
    Response.write_error 400 (bytes "interval must be day or hour")
answer_time_line code interval fails s (some unit) =
    if fails
    then Response.write_error 500 (bytes "failed to load timeline")
    else Response.write_json 200
        (record { short_code = code; interval = interval; points = time_line_buckets code unit s })

-- StatsHandler.TimeLine
unfoldable pub time_line : Text → Text → Bool → Store → Response TimeLineResponse
unfolding answer_time_line
time_line code interval fails s =
    if is_empty code
    then Response.write_error 400 (bytes "short_code is required")
    else answer_time_line code interval fails s (interval_unit interval)
