-- ===== src/Analytics/Stats/Timeline.antt =====
-- The buckets of the timeline (services/analytics-service/store.go, handler.go).
use url_shortener_microservi.Prelude.{
  ℕ, suc, ◌+◌, ◌<◌, ◌≡◌, refl, sym, subst, Bool, true, false, ◌&&◌, Text, List, [], ◌∷◌, length,
  keep, All, All-map, Option, none, some, text_eq, is_empty, ltb, ◌==◌, if◌then◌else◌, if-both,
  if-cases, if-skips, arith,
}
use url_shortener_microservi.Http.{Response, json-injective, error-ne-json}
use url_shortener_microservi.Analytics.{ClickRecord, Store, count_by_code}
use url_shortener_microservi.Analytics.Stats.{
  TimeLinePoint, TimeLineResponse, date_trunc, count_period, group_by_period, time_line_buckets,
  interval_unit, answer_time_line, time_line,
}

-- The periods rise.
abbrev pub Rises : List TimeLinePoint → Type 0
Rises [] = Unit
Rises (p ∷ ps) = All (λ q. p.period < q.period) ps × Rises ps

-- The clicks of all points.
unfoldable pub clicks_of : List TimeLinePoint → ℕ
clicks_of [] = 0
clicks_of (p ∷ ps) = p.clicks + clicks_of ps

count_period-All :
    (P : ℕ → Type 0) (period : ℕ) (ps : List TimeLinePoint)
    → P period
    → All (λ q. P q.period) ps
    → All (λ q. P q.period) (count_period period ps)
unfolding count_period
count_period-All P period [] h k = (h, tt)
count_period-All P period (p ∷ ps) h k = if-both (All (λ q. P q.period)) (period == p.period) k (
    if-both (All (λ q. P q.period)) (ltb period p.period) (h, k)
      (k.0, count_period-All P period ps h k.1))

count_period-Rises :
    (period : ℕ) (ps : List TimeLinePoint) → Rises ps → Rises (count_period period ps)
unfolding count_period
count_period-Rises period [] h = (tt, tt)
count_period-Rises period (p ∷ ps) h =
    if-cases Rises (period == p.period) (λ e. h)
      (λ n.
        if-cases Rises (ltb period p.period)
          (λ l. ((ground arith, All-map (λ q r. ground arith) ps h.0), h))
          (λ g. (
            count_period-All (λ t. p.period < t) period ps (ground arith) h.0,
            count_period-Rises period ps h.1,
          )))

count_period-clicks :
    (period : ℕ) (ps : List TimeLinePoint) → clicks_of (count_period period ps) ≡ suc (clicks_of ps)
unfolding count_period clicks_of
count_period-clicks period [] = refl
count_period-clicks period (p ∷ ps) = ground (arith, count_period-clicks period ps)

group_by_period-Rises :
    (code : Text) (unit : ℕ) (cs : List ClickRecord) → Rises (group_by_period code unit cs)
unfolding group_by_period
group_by_period-Rises code unit [] = tt
group_by_period-Rises code unit (c ∷ cs) =
    let rest = group_by_period-Rises code unit cs in
    if-both Rises (text_eq c.short_code code)
      (count_period-Rises (date_trunc unit c.clicked_at) (group_by_period code unit cs) rest) rest

group_by_period-clicks :
    (code : Text) (unit : ℕ) (cs : List ClickRecord)
    → clicks_of (group_by_period code unit cs) ≡ length (keep (λ c. text_eq c.short_code code) cs)
unfolding group_by_period clicks_of keep
group_by_period-clicks code unit [] = refl
group_by_period-clicks code unit (c ∷ cs) = ground (
  arith,
  group_by_period-clicks code unit cs,
  count_period-clicks (date_trunc unit c.clicked_at) (group_by_period code unit cs),
)

-- The clicks of the points of one period.
unfoldable pub clicks_at : ℕ → List TimeLinePoint → ℕ
clicks_at period [] = 0
clicks_at period (p ∷ ps) =
    if p.period == period then p.clicks + clicks_at period ps else clicks_at period ps

count_period-at :
    (period at : ℕ) (ps : List TimeLinePoint)
    → clicks_at at (count_period period ps)
      ≡ (if period == at then suc (clicks_at at ps) else clicks_at at ps)
unfolding count_period clicks_at
count_period-at period at [] = ground arith
count_period-at period at (p ∷ ps) = ground (arith, count_period-at period at ps)

-- The clicks of a code in one period.
unfoldable pub clicks_in : Text → ℕ → ℕ → List ClickRecord → ℕ
clicks_in code unit period cs =
    length (keep (λ c. text_eq c.short_code code && date_trunc unit c.clicked_at == period) cs)

group_by_period-at :
    (code : Text) (unit period : ℕ) (cs : List ClickRecord)
    → clicks_at period (group_by_period code unit cs) ≡ clicks_in code unit period cs
unfolding group_by_period clicks_at clicks_in keep
group_by_period-at code unit period [] = refl
group_by_period-at code unit period (c ∷ cs) = ground (
  arith,
  group_by_period-at code unit period cs,
  count_period-at (date_trunc unit c.clicked_at) period (group_by_period code unit cs),
)

-- What a timeline is for the clicks of a code.
pub record IsTimeline (code : Text) (unit : ℕ) (s : Store) (points : List TimeLinePoint)
    : Type 0 where
  pub rises : Rises points
  pub total : clicks_of points ≡ count_by_code code s
  pub each : (period : ℕ) → clicks_at period points ≡ clicks_in code unit period s.clicks

buckets-IsTimeline :
    (code : Text) (unit : ℕ) (s : Store) → IsTimeline code unit s (time_line_buckets code unit s)
unfolding time_line_buckets count_by_code
buckets-IsTimeline code unit s = record {
  rises = group_by_period-Rises code unit s.clicks;
  total = group_by_period-clicks code unit s.clicks;
  each = λ period. group_by_period-at code unit period s.clicks;
}

-- The answer of a timeline whose interval has been looked up.
IsAnswer : Text → Text → Store → ℕ → TimeLineResponse → Type 0
IsAnswer code interval s status resp =
    (status ≡ 200)
    × ((unit : ℕ) × (interval_unit interval ≡ some unit) × IsTimeline code unit s resp.points)

answer_time_line-IsTimeline :
    (code interval : Text) (fails : Bool) (s : Store) (unit : Option ℕ) (status : ℕ)
    (resp : TimeLineResponse)
    → interval_unit interval ≡ unit
    → answer_time_line code interval fails s unit ≡ Response.write_json status resp
    → IsAnswer code interval s status resp
unfolding answer_time_line IsAnswer
answer_time_line-IsTimeline code interval fails s none status resp e h = cc
answer_time_line-IsTimeline code interval true s (some unit) status resp e h = cc
answer_time_line-IsTimeline code interval false s (some unit) status resp e h =
    let (its, same) = json-injective h in
    let timeline =
      subst (λ r. IsTimeline code unit s r.points) same (buckets-IsTimeline code unit s) in
    (sym its, (unit, e, timeline))

-- When TimeLine answers a JSON body, its status is 200 and the interval is "day" or "hour"; the periods
-- of the points rise, the clicks of each period are those of the code whose time falls in it, and all
-- together they are the clicks of the code.
pub time_line-IsTimeline :
    (code interval : Text) (fails : Bool) (s : Store) (status : ℕ) (resp : TimeLineResponse)
    → time_line code interval fails s ≡ Response.write_json status resp
    → (status ≡ 200)
      × ((unit : ℕ) × (interval_unit interval ≡ some unit) × IsTimeline code unit s resp.points)
unfolding time_line IsAnswer
time_line-IsTimeline code interval fails s status resp h =
    let (_, answered) = if-skips (is_empty code) (error-ne-json 400 _ status resp) h in
    answer_time_line-IsTimeline code interval fails s (interval_unit interval) status resp refl
      answered
