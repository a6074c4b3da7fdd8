-- ===== src/Analytics/Counting.antt =====
-- How often a click is counted (services/analytics-service/consumer.go).
use url_shortener_microservi.Prelude.{
  ◌≡◌, sym, ap, subst, ◌∙◌, false, ◌||◌, Text, List, [], ◌∷◌, length, length-append, some_of,
  Option, ok, err, text_eq, if◌then◌else◌, if-both, arith, Bool-cases, inl, inr, Option-cases,
}
use url_shortener_microservi.Analytics.{
  ClickEvent, ClickRecord, Store, click_record_from_event, insert_click, exists_event, insert_event,
  Faults, Draws, Fallible, Processed, write_click, finish, parse_delivery, process_event,
  process_delivery,
}
use url_shortener_microservi.Analytics.Transaction.{SameClicks, Leaves, write_click-Leaves}

-- Ids that all differ, as the keys of processed_events do.
abbrev DistinctIds : List Text → Type 0
DistinctIds [] = Unit
DistinctIds (x ∷ xs) = (some_of (text_eq x) xs ≡ false) × DistinctIds xs

-- The ids are distinct, and there are as many clicks as ids.
unfoldable pub IsCounted : Store → Type 0
IsCounted s = DistinctIds s.processed_events × (length s.clicks ≡ length s.processed_events)

IsCounted-same : (s s' : Store) → SameClicks s s' → IsCounted s → IsCounted s'
unfolding SameClicks IsCounted
IsCounted-same s s' same h =
    (subst DistinctIds (sym same.1) h.0, ap length same.0 ∙ h.1 ∙ sym (ap length same.1))

-- A new event adds its id and its click.
IsCounted-new :
    (c : ClickRecord) (id : Text) (s : Store)
    → exists_event id s ≡ false
    → IsCounted s
    → IsCounted (insert_click c (insert_event id s))
unfolding IsCounted exists_event insert_event insert_click
IsCounted-new c id s new h =
    rw (new, if◌then◌else◌) ((new, h.0), length-append s.clicks (c ∷ []) ∙ omega (arith, h.1))

-- What holds of the store after a chain that began at `s'`, or of the old store.
finish-IsCounted :
    (f : Faults) (s s' : Store) (r : Fallible)
    → IsCounted s
    → IsCounted s'
    → Leaves s' r
    → IsCounted (finish f s r).store
unfolding finish Leaves
finish-IsCounted f s s' (err sent) old new h = old
finish-IsCounted f s s' (ok tx) old new h =
    if-both (λ (p : Processed). IsCounted p.store) f.commit old (IsCounted-same s' tx.store h new)

process_event-IsCounted :
    (f : Faults) (draws : Draws) (e : ClickEvent) (s : Store)
    → IsCounted s
    → IsCounted (process_event f draws e s).store
unfolding process_event
process_event-IsCounted f draws e s h = elim (Bool-cases (exists_event e.event_id s)) [
  | inl t ↦
      rw (t, if◌then◌else◌)
        (if-both (λ (p : Processed). IsCounted p.store) (f.begin || f.exists) h h)
  | inr new ↦
      rw (new, if◌then◌else◌)
        (if-both (λ (p : Processed). IsCounted p.store) (f.begin || f.exists) h
          (finish-IsCounted f s _ (write_click f draws e s) h
            (IsCounted-new (click_record_from_event e) e.event_id s new h)
            (write_click-Leaves f draws e s)))
]

process_delivery-IsCounted :
    (f : Faults) (draws : Draws) (body : Option ClickEvent) (s : Store)
    → IsCounted s
    → IsCounted (process_delivery f draws body s).store
unfolding process_delivery
process_delivery-IsCounted f draws body s h = elim (Option-cases (parse_delivery body)) [
  | inl bad ↦ rw (bad, process_delivery) h
  | inr (e, good) ↦ rw (good, process_delivery) (process_event-IsCounted f draws e s h)
]

-- A delivery, with the errors it meets.
pub record Delivery : Type 0 where
  pub faults : Faults
  pub draws : Draws
  pub body : Option ClickEvent

-- The store after a sequence of deliveries.
unfoldable pub consume : List Delivery → Store → Store
consume [] s = s
consume (d ∷ ds) s = consume ds (process_delivery d.faults d.draws d.body s).store

-- Whatever is delivered, however often and with whatever errors of the database, there is one click
-- for each id that was processed, and no id is there twice, if it was so at the start.
pub consume-IsCounted : (ds : List Delivery) (s : Store) → IsCounted s → IsCounted (consume ds s)
unfolding consume
consume-IsCounted [] s h = h
consume-IsCounted (d ∷ ds) s h =
    consume-IsCounted ds _ (process_delivery-IsCounted d.faults d.draws d.body s h)
