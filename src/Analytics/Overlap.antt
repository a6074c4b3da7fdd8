-- ===== src/Analytics/Overlap.antt =====
-- Two consumers of analytics-service at once, as while one replaces the other: processDelivery
-- (services/analytics-service/consumer.go) in a transaction that reads processed_events before another one
-- commits. Its insertion of the id waits for that one and then does nothing, for the conflict.
use url_shortener_microservi.Prelude.{
  ◌≡◌, ◌≢◌, refl, ap, ◌∙◌, subst, true, false, ◌||◌, Text, List, [], ◌∷◌, ◌++◌, ok, err, text_eq,
  text_eq_refl, some_of, if◌then◌else◌, if-both,
}
use url_shortener_microservi.Analytics.{
  ClickEvent, ClickRecord, Store, click_record_from_event, insert_click, exists_event, insert_event,
  Faults, Draws, Fallible, acked, requeued, Processed, write_click, finish, process_event,
}
use url_shortener_microservi.Analytics.Transaction.{SameClicks, Leaves, write_click-Leaves}

-- processDelivery of an event that was parsed, where Exists reads the store `seen` and the statements
-- that write follow it on another.
unfoldable pub process_overlapping : Faults → Draws → ClickEvent → Store → Store → Processed
process_overlapping f draws e seen s =
    if f.begin || f.exists
    then record { acknowledgement = requeued; store = s; published = [] }
    else if exists_event e.event_id seen
    then record { acknowledgement = acked; store = s; published = [] }
    else finish f s (write_click f draws e s)

-- With nothing in between, it is processDelivery.
overlapping-alone :
    (f : Faults) (draws : Draws) (e : ClickEvent) (s : Store)
    → process_overlapping f draws e s s ≡ process_event f draws e s
unfolding process_overlapping process_event
overlapping-alone f draws e s = refl

requeued-ne-acked : requeued ≢ acked
requeued-ne-acked h = cc

-- Where a transaction is acknowledged, it has left the clicks and ids of a store.
AckedLeaves : Store → Processed → Type 0
AckedLeaves s' p = p.acknowledgement ≡ acked → SameClicks s' p.store

finish-AckedLeaves :
    (f : Faults) (s s' : Store) (r : Fallible) → Leaves s' r → AckedLeaves s' (finish f s r)
unfolding finish Leaves AckedLeaves
finish-AckedLeaves f s s' (err sent) h = λ answer. absurd (requeued-ne-acked answer)
finish-AckedLeaves f s s' (ok tx) h =
    if-both (AckedLeaves s') f.commit (λ answer. absurd (requeued-ne-acked answer)) (λ answer. h)

-- A transaction that has not seen the event and is acknowledged adds its id and its click.
overlapping-AckedLeaves :
    (f : Faults) (draws : Draws) (e : ClickEvent) (seen s : Store)
    → exists_event e.event_id seen ≡ false
    → AckedLeaves
        (insert_click (click_record_from_event e) (insert_event e.event_id s))
        (process_overlapping f draws e seen s)
unfolding process_overlapping AckedLeaves
overlapping-AckedLeaves f draws e seen s new =
    let s' = insert_click (click_record_from_event e) (insert_event e.event_id s) in
    if-both (AckedLeaves s') (f.begin || f.exists) (λ answer. absurd (requeued-ne-acked answer))
      (rw (new, if◌then◌else◌)
        (finish-AckedLeaves f s s' (write_click f draws e s) (write_click-Leaves f draws e s)))

-- The rows that the insertions of one event leave, and those of a second insertion.
insert-new :
    (c : ClickRecord) (id : Text) (s t : Store)
    → exists_event id s ≡ false
    → SameClicks (insert_click c (insert_event id s)) t
    → (t.clicks ≡ s.clicks ++ c ∷ []) × (t.processed_events ≡ id ∷ s.processed_events)
unfolding SameClicks insert_click insert_event exists_event
insert-new c id s t new same =
    (same.0 ∙ rw (new, if◌then◌else◌) refl, same.1 ∙ rw (new, if◌then◌else◌) refl)

insert-again :
    (c : ClickRecord) (id : Text) (ids : List Text) (t u : Store)
    → t.processed_events ≡ id ∷ ids
    → SameClicks (insert_click c (insert_event id t)) u
    → (u.clicks ≡ t.clicks ++ c ∷ []) × (u.processed_events ≡ id ∷ ids)
unfolding SameClicks insert_click insert_event some_of
insert-again c id ids t u known same =
    let there : some_of (text_eq id) t.processed_events ≡ true =
      ap (λ l. some_of (text_eq id) l) known
      ∙ ap (λ b. b || some_of (text_eq id) ids) (text_eq_refl id) in
    (same.0 ∙ rw (there, if◌then◌else◌) refl, same.1 ∙ (rw (there, if◌then◌else◌) refl ∙ known))

-- An event that two consumers take at once is counted twice: if it was not processed, the second
-- consumer looks before the first one commits and writes after it, and both acknowledge it, then its
-- click is there two times more, and its id once.
pub overlapping-counts_twice :
    (f f' : Faults) (draws draws' : Draws) (e : ClickEvent) (s : Store)
    → exists_event e.event_id s ≡ false
    → (process_event f draws e s).acknowledgement ≡ acked
    → (process_overlapping f' draws' e s (process_event f draws e s).store).acknowledgement ≡ acked
    → ((process_overlapping f' draws' e s (process_event f draws e s).store).store.clicks
        ≡ (s.clicks ++ click_record_from_event e ∷ []) ++ click_record_from_event e ∷ [])
      × ((process_overlapping f' draws' e s
            (process_event f draws e s).store).store.processed_events
          ≡ e.event_id ∷ s.processed_events)
unfolding AckedLeaves
overlapping-counts_twice f f' draws draws' e s new first second =
    let t = (process_event f draws e s).store in
    let u = (process_overlapping f' draws' e s t).store in
    let c = click_record_from_event e in
    let alone = overlapping-alone f draws e s in
    let same =
      subst (λ (p : Processed). AckedLeaves (insert_click c (insert_event e.event_id s)) p) alone
        (overlapping-AckedLeaves f draws e s s new) first in
    let (clicks, ids) = insert-new c e.event_id s t new same in
    let (clicks', ids') =
      insert-again c e.event_id s.processed_events t u ids
        (overlapping-AckedLeaves f' draws' e s t new second) in
    (clicks' ∙ ap (λ l. l ++ c ∷ []) clicks, ids')
