-- ===== src/Analytics/Answers.antt =====
-- What the answer to the broker (services/analytics-service/consumer.go) means.
use url_shortener_microservi.Prelude.{
  ◌≡◌, refl, ap, ◌∙◌, true, ◌||◌, Text, [], some_of, Option, some, ok, err, text_eq, text_eq_refl,
  if◌then◌else◌, if-both, arith, Bool-cases, inl, inr, Option-cases,
}
use url_shortener_microservi.Analytics.{
  ClickEvent, Store, insert_click, exists_event, insert_event, Faults, Draws, Fallible, acked,
  requeued, Processed, write_click, finish, parse_delivery, process_event, process_delivery,
}
use url_shortener_microservi.Analytics.Transaction.{SameClicks, Leaves, write_click-Leaves}

insert_event-exists : (id : Text) (s : Store) → exists_event id (insert_event id s) ≡ true
unfolding exists_event insert_event some_of
insert_event-exists id s = elim (Bool-cases (some_of (text_eq id) s.processed_events)) [
  | inl t ↦ rw (t, if◌then◌else◌) t
  | inr n ↦
      rw (n, if◌then◌else◌)
        (ap (λ b. b || some_of (text_eq id) s.processed_events) (text_eq_refl id))
]

-- What an answer to the broker means for the store.
Answered : ClickEvent → Store → Processed → Type 0
Answered e s p =
    (p.acknowledgement ≡ requeued → p.store ≡ s)
    × (p.acknowledgement ≡ acked → exists_event e.event_id p.store ≡ true)

finish-Answered :
    (f : Faults) (e : ClickEvent) (s s' : Store) (r : Fallible)
    → exists_event e.event_id s' ≡ true
    → Leaves s' r
    → Answered e s (finish f s r)
unfolding finish Leaves Answered SameClicks exists_event
finish-Answered f e s s' (err sent) new h = (λ _. refl, λ q. cc)
finish-Answered f e s s' (ok tx) new h =
    if-both (Answered e s) f.commit (λ _. refl, λ q. cc)
      (λ q. cc, λ _. ap (some_of (text_eq e.event_id)) h.1 ∙ new)

process_event-Answered :
    (f : Faults) (draws : Draws) (e : ClickEvent) (s : Store)
    → Answered e s (process_event f draws e s)
unfolding process_event Answered insert_click exists_event
process_event-Answered f draws e s =
    if-both (Answered e s) (f.begin || f.exists) (λ _. refl, λ q. cc)
      (elim (Bool-cases (exists_event e.event_id s)) [
        | inl t ↦
            rw (t, if◌then◌else◌)
              (let answer : Answered e s
                    (record { acknowledgement = acked; store = s; published = [] }) =
                  (λ q. cc, λ _. t) in
                answer)
        | inr n ↦
            rw (n, if◌then◌else◌)
              (finish-Answered f e s _ (write_click f draws e s) (insert_event-exists e.event_id s)
                (write_click-Leaves f draws e s))
      ])

process_delivery-Answered :
    (f : Faults) (draws : Draws) (body : Option ClickEvent) (e : ClickEvent) (s : Store)
    → parse_delivery body ≡ some e
    → Answered e s (process_delivery f draws body s)
unfolding process_delivery
process_delivery-Answered f draws body e s good =
    rw (good, process_delivery) (process_event-Answered f draws e s)

-- If the delivery of an event that parseDelivery takes is returned to the queue, the store is as it was.
pub process_delivery-requeued :
    (f : Faults) (draws : Draws) (body : Option ClickEvent) (e : ClickEvent) (s : Store)
    → parse_delivery body ≡ some e
    → (process_delivery f draws body s).acknowledgement ≡ requeued
    → (process_delivery f draws body s).store ≡ s
unfolding Answered
process_delivery-requeued f draws body e s good =
    (process_delivery-Answered f draws body e s good).0

-- If the delivery of an event that parseDelivery takes is acknowledged, the id of the event is then
-- among those processed.
pub process_delivery-acked :
    (f : Faults) (draws : Draws) (body : Option ClickEvent) (e : ClickEvent) (s : Store)
    → parse_delivery body ≡ some e
    → (process_delivery f draws body s).acknowledgement ≡ acked
    → exists_event e.event_id (process_delivery f draws body s).store ≡ true
unfolding Answered
process_delivery-acked f draws body e s good = (process_delivery-Answered f draws body e s good).1

Silent : Store → Processed → Type 0
Silent s p = (p.store ≡ s) × (p.published ≡ [])

process_event-Silent :
    (f : Faults) (draws : Draws) (e : ClickEvent) (s : Store)
    → exists_event e.event_id s ≡ true
    → Silent s (process_event f draws e s)
unfolding process_event Silent
process_event-Silent f draws e s seen =
    rw (seen, if◌then◌else◌) (if-both (Silent s) (f.begin || f.exists) (refl, refl) (refl, refl))

-- A delivery of an event whose id was processed changes nothing in the store and publishes nothing,
-- whatever the database answers.
pub process_delivery-duplicate :
    (f : Faults) (draws : Draws) (body : Option ClickEvent) (e : ClickEvent) (s : Store)
    → parse_delivery body ≡ some e
    → exists_event e.event_id s ≡ true
    → ((process_delivery f draws body s).store ≡ s)
      × ((process_delivery f draws body s).published ≡ [])
unfolding process_delivery Silent
process_delivery-duplicate f draws body e s good seen =
    let silent : Silent s (process_delivery f draws body s) =
      rw (good, process_delivery) (process_event-Silent f draws e s seen) in
    silent

-- An id that was processed stays so.
Keeps : Text → Processed → Type 0
Keeps id p = exists_event id p.store ≡ true

insert_event-keeps :
    (id id' : Text) (s : Store)
    → exists_event id s ≡ true
    → exists_event id (insert_event id' s) ≡ true
unfolding exists_event insert_event some_of
insert_event-keeps id id' s h = ground arith

finish-Keeps :
    (f : Faults) (id : Text) (s s' : Store) (r : Fallible)
    → exists_event id s ≡ true
    → exists_event id s' ≡ true
    → Leaves s' r
    → Keeps id (finish f s r)
unfolding finish Leaves Keeps SameClicks exists_event
finish-Keeps f id s s' (err sent) old new h = old
finish-Keeps f id s s' (ok tx) old new h =
    if-both (Keeps id) f.commit old (ap (some_of (text_eq id)) h.1 ∙ new)

process_event-Keeps :
    (f : Faults) (draws : Draws) (e : ClickEvent) (id : Text) (s : Store)
    → exists_event id s ≡ true
    → Keeps id (process_event f draws e s)
unfolding process_event Keeps insert_click exists_event
process_event-Keeps f draws e id s h = if-both (Keeps id) (f.begin || f.exists) h (
    if-both (Keeps id) (exists_event e.event_id s) h (
      finish-Keeps f id s _ (write_click f draws e s) h (insert_event-keeps id e.event_id s h)
        (write_click-Leaves f draws e s)))

-- An id that was processed stays so, whatever is delivered and whatever fails.
pub process_delivery-exists :
    (f : Faults) (draws : Draws) (body : Option ClickEvent) (id : Text) (s : Store)
    → exists_event id s ≡ true
    → exists_event id (process_delivery f draws body s).store ≡ true
unfolding process_delivery Keeps
process_delivery-exists f draws body id s h = elim (Option-cases (parse_delivery body)) [
  | inl bad ↦ rw (bad, process_delivery) h
  | inr (e, good) ↦ rw (good, process_delivery) (process_event-Keeps f draws e id s h)
]
