-- ===== src/Analytics/Milestones.antt =====
-- When a milestone is recorded (services/analytics-service/milestone.go).
use url_shortener_microservi.Prelude.{
  ℕ, ◌≤◌, ◌≡◌, refl, sym, subst, ◌∙◌, Bool, ◌||◌, Text, List, [], ◌∷◌, ◌++◌, length, keep, some_of,
  All, All-map, Option, ok, err, ◌>>=◌, text_eq, ltb, if◌then◌else◌, if-both, arith, Bool-cases,
  inl, inr, Option-cases,
}
use url_shortener_microservi.Analytics.{
  ClickEvent, ClickRecord, Store, click_record_from_event, insert_click, exists_event, insert_event,
  has_milestone, insert_milestone, Faults, Draws, Tx, Fallible, publish_if_new_milestone,
  check_thresholds, milestone_thresholds, check_and_publish, count_by_code, Processed, write_click,
  finish, parse_delivery, process_event, process_delivery,
}
use url_shortener_microservi.Analytics.Counting.{Delivery, consume}

-- Each milestone that is recorded has been reached by the clicks of its code.
unfoldable pub IsEarned : Store → Type 0
IsEarned s = All (λ (m : Text × ℕ). m.1 ≤ count_by_code m.0 s) s.milestones

keep-append :
    {A : Type 0} (p : A → Bool) (xs : List A) (x : A)
    → length (keep p xs) ≤ length (keep p (xs ++ x ∷ []))
unfolding keep
keep-append p [] x = omega arith
keep-append p (y ∷ ys) x = ground (arith, keep-append p ys x)

insert_click-IsEarned : (c : ClickRecord) (s : Store) → IsEarned s → IsEarned (insert_click c s)
unfolding IsEarned insert_click count_by_code
insert_click-IsEarned c s h =
    All-map
      (λ (m : Text × ℕ) q. omega (arith, q, keep-append (λ c. text_eq c.short_code m.0) s.clicks c))
      s.milestones h

insert_event-IsEarned : (id : Text) (s : Store) → IsEarned s → IsEarned (insert_event id s)
unfolding IsEarned insert_event count_by_code
insert_event-IsEarned id s h =
    if-both (λ (x : Store). All (λ (m : Text × ℕ). m.1 ≤ count_by_code m.0 x) x.milestones)
      (some_of (text_eq id) s.processed_events) h h

insert_milestone-IsEarned :
    (code : Text) (n : ℕ) (s : Store)
    → n ≤ count_by_code code s
    → IsEarned s
    → IsEarned (insert_milestone code n s)
      × (count_by_code code (insert_milestone code n s) ≡ count_by_code code s)
unfolding IsEarned insert_milestone count_by_code
insert_milestone-IsEarned code n s reached h =
    if-both
      (λ (x : Store).
        All (λ (m : Text × ℕ). m.1 ≤ count_by_code m.0 x) x.milestones
        × (count_by_code code x ≡ count_by_code code s))
      (has_milestone code n s) (h, refl) ((reached, h), refl)

-- What a part of the transaction leaves, if it succeeds.
Leaves : Text → ℕ → Fallible → Type 0
Leaves code total (ok tx) = IsEarned tx.store × (count_by_code code tx.store ≡ total)
Leaves code total (err sent) = Unit

>>=-Leaves :
    (code : Text) (total : ℕ) (r : Fallible) (g : Tx → Fallible)
    → Leaves code total r
    → ((tx : Tx)
        → IsEarned tx.store
        → count_by_code code tx.store ≡ total
        → Leaves code total (g tx))
    → Leaves code total (r >>= g)
unfolding Leaves
>>=-Leaves code total (ok tx) g h k = k tx h.0 h.1
>>=-Leaves code total (err sent) g h k = tt

module _ (f : Faults) (draws : Draws) (e : ClickEvent) (total : ℕ) where
  publish-Leaves :
      (n : ℕ) (tx : Tx)
      → n ≤ total
      → IsEarned tx.store
      → count_by_code e.short_code tx.store ≡ total
      → Leaves e.short_code total (publish_if_new_milestone f draws e total n tx)
  unfolding publish_if_new_milestone Leaves
  publish-Leaves n tx reached h same =
      let P = Leaves e.short_code total in
      let (kept, count) =
        insert_milestone-IsEarned e.short_code n tx.store (subst (λ x. n ≤ x) (sym same) reached)
          h in
      if-both P (f.has_milestone n) tt (
        if-both P (has_milestone e.short_code n tx.store) (h, same)
          (if-both P (f.milestone n) tt (kept, count ∙ same)))

  step-Leaves :
      (t : ℕ) (tx : Tx)
      → IsEarned tx.store
      → count_by_code e.short_code tx.store ≡ total
      → Leaves e.short_code total
          (if ltb total t then ok tx else publish_if_new_milestone f draws e total t tx)
  unfolding Leaves
  step-Leaves t tx h same = elim (Bool-cases (ltb total t)) [
    | inl l ↦ rw (l, if◌then◌else◌) (h, same)
    | inr g ↦ rw (g, if◌then◌else◌) (publish-Leaves t tx (ground arith) h same)
  ]

  check_thresholds-Leaves :
      (ts : List ℕ) (tx : Tx)
      → IsEarned tx.store
      → count_by_code e.short_code tx.store ≡ total
      → Leaves e.short_code total (check_thresholds f draws e total ts tx)
  unfolding check_thresholds Leaves
  check_thresholds-Leaves [] tx h same = (h, same)
  check_thresholds-Leaves (t ∷ ts) tx h same =
      >>=-Leaves e.short_code total
        (if ltb total t then ok tx else publish_if_new_milestone f draws e total t tx)
        (check_thresholds f draws e total ts) (step-Leaves t tx h same) (check_thresholds-Leaves ts)

write_click-Leaves :
    (f : Faults) (draws : Draws) (e : ClickEvent) (s : Store)
    → IsEarned s
    → Leaves e.short_code
        (count_by_code e.short_code
          (insert_click (click_record_from_event e) (insert_event e.event_id s)))
        (write_click f draws e s)
unfolding write_click check_and_publish Leaves
write_click-Leaves f draws e s h =
    let s' = insert_click (click_record_from_event e) (insert_event e.event_id s) in
    let total = count_by_code e.short_code s' in
    let P = Leaves e.short_code total in
    if-both P f.dedup tt (
      if-both P f.click tt (
        if-both P f.count tt (
          check_thresholds-Leaves f draws e total milestone_thresholds
            (record { store = s'; published = [] })
            (insert_click-IsEarned (click_record_from_event e) (insert_event e.event_id s)
              (insert_event-IsEarned e.event_id s h))
            refl)))

finish-IsEarned :
    (f : Faults) (s : Store) (code : Text) (total : ℕ) (r : Fallible)
    → IsEarned s
    → Leaves code total r
    → IsEarned (finish f s r).store
unfolding finish Leaves
finish-IsEarned f s code total (err sent) old h = old
finish-IsEarned f s code total (ok tx) old h =
    if-both (λ (p : Processed). IsEarned p.store) f.commit old h.0

process_delivery-IsEarned :
    (f : Faults) (draws : Draws) (body : Option ClickEvent) (s : Store)
    → IsEarned s
    → IsEarned (process_delivery f draws body s).store
unfolding process_delivery process_event
process_delivery-IsEarned f draws body s h = elim (Option-cases (parse_delivery body)) [
  | inl bad ↦ rw (bad, process_delivery) h
  | inr (e, good) ↦
      rw (good, process_delivery)
        (if-both (λ (p : Processed). IsEarned p.store) (f.begin || f.exists) h
          (if-both (λ (p : Processed). IsEarned p.store) (exists_event e.event_id s) h
            (finish-IsEarned f s _ _ (write_click f draws e s) h
              (write_click-Leaves f draws e s h))))
]

-- Whatever is delivered and whatever fails, each milestone that is recorded for a code has been
-- reached by the clicks that are recorded for it, if it was so at the start.
pub consume-IsEarned : (ds : List Delivery) (s : Store) → IsEarned s → IsEarned (consume ds s)
unfolding consume
consume-IsEarned [] s h = h
consume-IsEarned (d ∷ ds) s h =
    consume-IsEarned ds _ (process_delivery-IsEarned d.faults d.draws d.body s h)
