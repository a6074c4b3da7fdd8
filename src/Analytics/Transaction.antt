-- ===== src/Analytics/Transaction.antt =====
-- What the milestones of a transaction (services/analytics-service/milestone.go) leave alone.
use url_shortener_microservi.Prelude.{
  ℕ, ◌≡◌, refl, ◌∙◌, Text, List, [], ◌∷◌, ok, err, ◌>>=◌, ltb, if◌then◌else◌, if-both,
}
use url_shortener_microservi.Analytics.{
  ClickEvent, Store, click_record_from_event, insert_click, insert_event, has_milestone,
  insert_milestone, Faults, Draws, Tx, Fallible, publish_if_new_milestone, check_thresholds,
  milestone_thresholds, check_and_publish, count_by_code, write_click,
}

-- The clicks and the ids that a later store has as an earlier one has.
unfoldable pub SameClicks : Store → Store → Type 0
SameClicks s s' = (s'.clicks ≡ s.clicks) × (s'.processed_events ≡ s.processed_events)

SameClicks-trans : (s t u : Store) → SameClicks s t → SameClicks t u → SameClicks s u
unfolding SameClicks
SameClicks-trans s t u h k = (k.0 ∙ h.0, k.1 ∙ h.1)

insert_milestone-SameClicks :
    (code : Text) (n : ℕ) (s : Store) → SameClicks s (insert_milestone code n s)
unfolding SameClicks insert_milestone
insert_milestone-SameClicks code n s =
    if-both (λ (x : Store). (x.clicks ≡ s.clicks) × (x.processed_events ≡ s.processed_events))
      (has_milestone code n s) (refl, refl) (refl, refl)

-- What a part of the transaction leaves, if it succeeds, has these as in `s`.
unfoldable pub Leaves : Store → Fallible → Type 0
unfolding SameClicks
Leaves s (ok tx) = SameClicks s tx.store
Leaves s (err sent) = Unit

Leaves-weaken : (s t : Store) (r : Fallible) → SameClicks s t → Leaves t r → Leaves s r
unfolding Leaves
Leaves-weaken s t (ok tx) h k = SameClicks-trans s t tx.store h k
Leaves-weaken s t (err sent) h k = tt

>>=-Leaves :
    (s : Store) (r : Fallible) (g : Tx → Fallible)
    → Leaves s r
    → ((tx : Tx) → Leaves tx.store (g tx))
    → Leaves s (r >>= g)
unfolding Leaves
>>=-Leaves s (ok tx) g h k = Leaves-weaken s tx.store (g tx) h (k tx)
>>=-Leaves s (err sent) g h k = tt

module _ (f : Faults) (draws : Draws) (e : ClickEvent) (total : ℕ) where
  publish-Leaves :
      (n : ℕ) (tx : Tx) → Leaves tx.store (publish_if_new_milestone f draws e total n tx)
  unfolding publish_if_new_milestone Leaves SameClicks
  publish-Leaves n tx = if-both (Leaves tx.store) (f.has_milestone n) tt (
      if-both (Leaves tx.store) (has_milestone e.short_code n tx.store) (refl, refl)
        (if-both (Leaves tx.store) (f.milestone n) tt
          (insert_milestone-SameClicks e.short_code n tx.store)))

  check_thresholds-Leaves :
      (ts : List ℕ) (tx : Tx) → Leaves tx.store (check_thresholds f draws e total ts tx)
  unfolding check_thresholds Leaves SameClicks
  check_thresholds-Leaves [] tx = (refl, refl)
  check_thresholds-Leaves (t ∷ ts) tx =
      >>=-Leaves tx.store
        (if ltb total t then ok tx else publish_if_new_milestone f draws e total t tx)
        (check_thresholds f draws e total ts)
        (if-both (Leaves tx.store) (ltb total t) (refl, refl) (publish-Leaves t tx))
        (check_thresholds-Leaves ts)

pub write_click-Leaves :
    (f : Faults) (draws : Draws) (e : ClickEvent) (s : Store)
    → Leaves
        (insert_click (click_record_from_event e) (insert_event e.event_id s))
        (write_click f draws e s)
unfolding write_click check_and_publish Leaves
write_click-Leaves f draws e s =
    let s' = insert_click (click_record_from_event e) (insert_event e.event_id s) in
    if-both (Leaves s') f.dedup tt (
      if-both (Leaves s') f.click tt (
        if-both (Leaves s') f.count tt (
          check_thresholds-Leaves f draws e (count_by_code e.short_code s') milestone_thresholds
            (record { store = s'; published = [] }))))
