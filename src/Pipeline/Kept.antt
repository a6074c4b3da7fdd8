-- ===== src/Pipeline/Kept.antt =====
-- What becomes of the message of a record of the outbox (services/url-service/outbox.go,
-- services/analytics-service/).
use url_shortener_microservi.Prelude.{
  ◌≡◌, ◌⊎◌, inl, inr, refl, ap, ◌∙◌, true, false, List, [], ◌∷◌, ◌++◌, Option, Option-cases, none,
  some, text_eq,
}
use url_shortener_microservi.Events.{Payload, url_clicked, type_name}
use url_shortener_microservi.Url.Db.{OutboxRecord}
use url_shortener_microservi.Url.Outbox.{unpublished}
use url_shortener_microservi.Analytics.{
  ClickEvent, Store, Faults, Draws, Acknowledgement, acked, requeued, exists_event, parse_delivery,
  process_delivery,
}
use url_shortener_microservi.Analytics.Answers.{process_delivery-acked, process_delivery-exists}
use url_shortener_microservi.Pipeline.{queue_after}

abbrev pub InQueue : Payload → List Payload → Type 0
InQueue m [] = ⊥
InQueue m (x ∷ xs) = (m ≡ x) ⊎ InQueue m xs

InQueue-left : (m : Payload) (xs ys : List Payload) → InQueue m xs → InQueue m (xs ++ ys)
InQueue-left m [] ys h = elim h [ ]
InQueue-left m (x ∷ xs) ys (inl e) = inl e
InQueue-left m (x ∷ xs) ys (inr h) = inr (InQueue-left m xs ys h)

pub InQueue-last : (m : Payload) (xs : List Payload) → InQueue m (xs ++ (m ∷ []))
InQueue-last m [] = inl refl
InQueue-last m (x ∷ xs) = inr (InQueue-last m xs)

InQueue-split :
    (m x : Payload) (before after : List Payload)
    → InQueue m (before ++ (x ∷ after))
    → (m ≡ x) ⊎ InQueue m (before ++ after)
InQueue-split m x [] after h = h
InQueue-split m x (y ∷ ys) after (inl e) = inr (inl e)
InQueue-split m x (y ∷ ys) after (inr h) = elim (InQueue-split m x ys after h) [
  | inl e ↦ inl e
  | inr rest ↦ inr (inr rest)
]

module _ (decode : Payload → Option ClickEvent) where
  -- What may be the case of a record of the outbox.
  pub data Kept (queue : List Payload) (store : Store) (r : OutboxRecord) : Type 0 where
    not_yet : unpublished r.published_at ≡ true → Kept queue store r
    no_click : text_eq r.event_type (type_name url_clicked) ≡ false → Kept queue store r
    waits : InQueue r.payload queue → Kept queue store r
    counted :
        (e : ClickEvent)
        → parse_delivery (decode r.payload) ≡ some e
        → exists_event e.event_id store ≡ true
        → Kept queue store r
    discarded : parse_delivery (decode r.payload) ≡ none → Kept queue store r

  pub Kept-queue :
      (queue more : List Payload) (store : Store) (r : OutboxRecord)
      → Kept queue store r
      → Kept (queue ++ more) store r
  Kept-queue queue more store r (not_yet h) = not_yet h
  Kept-queue queue more store r (no_click h) = no_click h
  Kept-queue queue more store r (waits h) = waits (InQueue-left r.payload queue more h)
  Kept-queue queue more store r (counted e p h) = counted e p h
  Kept-queue queue more store r (discarded h) = discarded h

  -- A delivery whose message was acknowledged has counted or discarded it.
  Kept-acked :
      (f : Faults) (draws : Draws) (m : Payload) (store : Store) (queue : List Payload)
      (r : OutboxRecord)
      → r.payload ≡ m
      → (process_delivery f draws (decode m) store).acknowledgement ≡ acked
      → Kept queue (process_delivery f draws (decode m) store).store r
  Kept-acked f draws m store queue r same ack = elim (Option-cases (parse_delivery (decode m))) [
    | inl bad ↦ discarded (ap (λ x. parse_delivery (decode x)) same ∙ bad)
    | inr (e, good) ↦
        counted e (ap (λ x. parse_delivery (decode x)) same ∙ good)
          (process_delivery-acked f draws (decode m) e store good ack)
  ]

  Kept-waits :
      (f : Faults) (draws : Draws) (before after : List Payload) (m : Payload) (store : Store)
      (r : OutboxRecord) (a : Acknowledgement)
      → (process_delivery f draws (decode m) store).acknowledgement ≡ a
      → InQueue r.payload (before ++ (m ∷ after))
      → Kept (queue_after a before m after) (process_delivery f draws (decode m) store).store r
  unfolding queue_after
  Kept-waits f draws before after m store r requeued ack h = waits h
  Kept-waits f draws before after m store r acked ack h =
      elim (InQueue-split r.payload m before after h) [
        | inl same ↦ Kept-acked f draws m store (before ++ after) r same ack
        | inr rest ↦ waits rest
      ]

  -- A delivery.
  pub Kept-delivers :
      (f : Faults) (draws : Draws) (before after : List Payload) (m : Payload) (store : Store)
      (r : OutboxRecord)
      → Kept (before ++ (m ∷ after)) store r
      → Kept
          (queue_after (process_delivery f draws (decode m) store).acknowledgement before m after)
          (process_delivery f draws (decode m) store).store
          r
  Kept-delivers f draws before after m store r (not_yet h) = not_yet h
  Kept-delivers f draws before after m store r (no_click h) = no_click h
  Kept-delivers f draws before after m store r (discarded h) = discarded h
  Kept-delivers f draws before after m store r (counted e p h) =
      counted e p (process_delivery-exists f draws (decode m) e.event_id store h)
  Kept-delivers f draws before after m store r (waits h) =
      Kept-waits f draws before after m store r _ refl h
