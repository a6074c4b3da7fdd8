-- ===== src/Analytics/Stats/Summary.antt =====
-- The statistics of a code (services/analytics-service/store.go, handler.go).
use native.Mathlib.Nat.{ℕ_set}
use mathlib.Core.Logic.{∥∥₁_elim}
use mathlib.Core.List.{Perm, Permᴰ}
use url_shortener_microservi.Prelude.{
  ℕ, zero, suc, ◌+◌, ◌-◌, ◌*◌, ◌≤◌, ◌≡◌, refl, sym, ap, ◌∙◌, subst, Bool, inl, inr, true, false,
  ◌&&◌, ◌||◌, Text, List, [], ◌∷◌, length, length-take, take, keep, All, Option-cases, none, some,
  text_eq, is_empty, leb, if◌then◌else◌, if-skips, arith,
}
use url_shortener_microservi.Http.{Response, json-injective, error-ne-json}
use url_shortener_microservi.Analytics.{ClickRecord, Store, count_by_code}
use url_shortener_microservi.Analytics.Stats.{
  one_day, stats_top_referers_limit, RefererCount, count_by_code_since, count_referer,
  group_by_referer, top_referers, StatsResponse, Queries, load_stats, answer_stats, stats,
}

-- The clicks of all groups.
unfoldable pub counts_of : List RefererCount → ℕ
counts_of [] = 0
counts_of (g ∷ gs) = g.count + counts_of gs

-- The counts fall or stay.
abbrev pub Descends : List RefererCount → Type 0
Descends [] = Unit
Descends (g ∷ gs) = All (λ x. x.count ≤ g.count) gs × Descends gs

counts_of-perm : {gs hs : List RefererCount} → Permᴰ gs hs → counts_of gs ≡ counts_of hs
unfolding counts_of
counts_of-perm Permᴰ.nil = refl
counts_of-perm (Permᴰ.cons e d) = omega (arith, ap (λ g. g.count) e, counts_of-perm d)
counts_of-perm (Permᴰ.swap e e') = omega (arith, ap (λ g. g.count) e, ap (λ g. g.count) e')
counts_of-perm (Permᴰ.trans d d') = counts_of-perm d ∙ counts_of-perm d'

counts_of-take : (n : ℕ) (gs : List RefererCount) → counts_of (take n gs) ≤ counts_of gs
unfolding counts_of
counts_of-take zero gs = omega arith
counts_of-take (suc n) [] = omega arith
counts_of-take (suc n) (g ∷ gs) = omega (arith, counts_of-take n gs)

take-All :
    (P : RefererCount → Type 0) (n : ℕ) (gs : List RefererCount) → All P gs → All P (take n gs)
take-All P zero gs h = tt
take-All P (suc n) [] h = tt
take-All P (suc n) (g ∷ gs) h = (h.0, take-All P n gs h.1)

take-Descends : (n : ℕ) (gs : List RefererCount) → Descends gs → Descends (take n gs)
take-Descends zero gs h = tt
take-Descends (suc n) [] h = tt
take-Descends (suc n) (g ∷ gs) h =
    (take-All (λ x. x.count ≤ g.count) n gs h.0, take-Descends n gs h.1)

count_referer-counts :
    (referer : Text) (gs : List RefererCount)
    → counts_of (count_referer referer gs) ≡ suc (counts_of gs)
unfolding count_referer counts_of
count_referer-counts referer [] = refl
count_referer-counts referer (g ∷ gs) = ground (arith, count_referer-counts referer gs)

group-counts :
    (code : Text) (cs : List ClickRecord)
    → counts_of (group_by_referer code cs) ≤ length (keep (λ c. text_eq c.short_code code) cs)
unfolding group_by_referer counts_of keep
group-counts code [] = omega arith
group-counts code (c ∷ cs) = elim (Option-cases c.referer) [
  | inl e ↦ rw e (ground (arith, group-counts code cs))
  | inr (r, e) ↦
      rw e (ground (arith, group-counts code cs, count_referer-counts r (group_by_referer code cs)))
]

-- The later the start, the fewer clicks.
since-falls :
    (code : Text) (a b : ℕ) (cs : List ClickRecord)
    → a ≤ b
    → length (keep (λ c. text_eq c.short_code code && leb b c.clicked_at) cs)
      ≤ length (keep (λ c. text_eq c.short_code code && leb a c.clicked_at) cs)
unfolding keep
since-falls code a b [] h = omega arith
since-falls code a b (c ∷ cs) h = ground (arith, since-falls code a b cs h)

since-total :
    (code : Text) (a : ℕ) (cs : List ClickRecord)
    → length (keep (λ c. text_eq c.short_code code && leb a c.clicked_at) cs)
      ≤ length (keep (λ c. text_eq c.short_code code) cs)
unfolding keep
since-total code a [] = omega arith
since-total code a (c ∷ cs) = ground (arith, since-total code a cs)

-- ORDER BY cnt DESC: the same groups, in descending order of their counts.
pub record IsOrderBy (order_by : List RefererCount → List RefererCount) : Type 0 where
  pub permutes : (gs : List RefererCount) → Perm (order_by gs) gs
  pub descends : (gs : List RefererCount) → Descends (order_by gs)

counts_of-order_by :
    (order_by : List RefererCount → List RefererCount)
    → IsOrderBy order_by
    → (gs : List RefererCount) → counts_of (order_by gs) ≡ counts_of gs
counts_of-order_by order_by o gs = ∥∥₁_elim (o.permutes gs) (ℕ_set _ _) counts_of-perm

-- What the statistics of a code are.
pub record IsConsistent (code : Text) (resp : StatsResponse) (s : Store) : Type 0 where
  pub total : resp.total_clicks ≡ count_by_code code s
  pub day_in_week : resp.clicks_last_24h ≤ resp.clicks_last_7d
  pub week_in_total : resp.clicks_last_7d ≤ resp.total_clicks
  pub five : length resp.top_referers ≤ 5
  pub descends : Descends resp.top_referers
  pub referers_in_total : counts_of resp.top_referers ≤ resp.total_clicks

-- The four queries see one store.
pub record SeesOne (q : Queries) (s : Store) : Type 0 where
  pub total : q.total ≡ s
  pub day : q.day ≡ s
  pub week : q.week ≡ s
  pub referers : q.referers ≡ s

-- What loadStats makes where no query fails.
loaded : (List RefererCount → List RefererCount) → ℕ → Text → Queries → StatsResponse
loaded order_by now code q = record {
  short_code = code;
  total_clicks = count_by_code code q.total;
  clicks_last_24h = count_by_code_since code (now - one_day) q.day;
  clicks_last_7d = count_by_code_since code (now - 7 * one_day) q.week;
  top_referers = top_referers order_by code stats_top_referers_limit q.referers;
}

loaded-IsConsistent :
    (order_by : List RefererCount → List RefererCount) (now : ℕ) (code : Text) (q : Queries)
    (s : Store)
    → IsOrderBy order_by
    → SeesOne q s
    → IsConsistent code (loaded order_by now code q) s
unfolding loaded count_by_code count_by_code_since top_referers
loaded-IsConsistent order_by now code q s o one =
    let groups = group_by_referer code s.clicks in
    record {
      total = ap (count_by_code code) one.total;
      day_in_week =
          rw (one.day, one.week)
            (since-falls code (now - 7 * one_day) (now - one_day) s.clicks (omega arith));
      week_in_total = rw (one.week, one.total) (since-total code (now - 7 * one_day) s.clicks);
      five = omega (arith, length-take 5 (order_by (group_by_referer code q.referers.clicks)));
      descends =
          take-Descends 5 (order_by (group_by_referer code q.referers.clicks))
            (o.descends (group_by_referer code q.referers.clicks));
      referers_in_total =
          rw (one.referers, one.total)
            (omega (
              arith,
              counts_of-take 5 (order_by groups),
              counts_of-order_by order_by o groups,
              group-counts code s.clicks,
            ));
    }

answer_stats-IsConsistent :
    (code : Text) (s : Store) (fails : Bool) (resp : StatsResponse) (status : ℕ)
    (answered : StatsResponse)
    → IsConsistent code resp s
    → answer_stats (if fails then none else some resp) ≡ Response.write_json status answered
    → (status ≡ 200) × IsConsistent code answered s
unfolding answer_stats
answer_stats-IsConsistent code s true resp status answered c h = cc
answer_stats-IsConsistent code s false resp status answered c h =
    let (ok_, same) = json-injective h in (sym ok_, subst (λ r. IsConsistent code r s) same c)

-- When Stats answers a JSON body and its four queries see one store, the status is 200, the total is the
-- number of clicks of the code, the clicks of the last 24 hours are at most those of the last 7 days and
-- these at most the total, and there are at most five referers, in descending order of their counts,
-- which together are at most the total. ORDER BY permutes the groups into descending order.
pub stats-IsConsistent :
    (order_by : List RefererCount → List RefererCount) (now : ℕ) (code : Text) (q : Queries)
    (s : Store) (status : ℕ) (resp : StatsResponse)
    → IsOrderBy order_by
    → SeesOne q s
    → stats order_by now code q ≡ Response.write_json status resp
    → (status ≡ 200) × IsConsistent code resp s
unfolding stats load_stats loaded
stats-IsConsistent order_by now code q s status resp o one h =
    let (_, answered) = if-skips (is_empty code) (error-ne-json 400 _ status resp) h in
    answer_stats-IsConsistent code s
      ((q.total_fails || q.day_fails) || (q.week_fails || q.referers_fails))
      (loaded order_by now code q) status resp (loaded-IsConsistent order_by now code q s o one)
      answered
