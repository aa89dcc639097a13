-- ===== src/Webhook/Calls.antt =====
-- What one delivery of a request comes to: its webhook calls, its metrics and its error.
use gqueue.Common.{
  ℕ, String, true, false, ◌≡◌, ◌↔◌, ◌≢◌, ◌⊎◌, inl, inr, Option, none, some, List, [], ◌∷◌, refl,
}
use gqueue.Fetch.{Kind}
use gqueue.Publisher.{RequestPayload}
use gqueue.Webhook.{
  ConsumerMetric, ConsumerEnv, Consumed, insert_consumer_insights, notification, after_notify,
  after_validate, after_payload, request_handle,
}

module _ {D : Type 0} (env : ConsumerEnv D) (validate : RequestPayload D → Option String)
    (opt : Kind) (lag : RequestPayload D → List (ℕ × ℕ)) where
  -- A body that cannot be read or is refused: nothing is called and nothing stored.
  abbrev pub IsStopped : Consumed D → Type 0
  IsStopped r =
      ((env.payload ≡ none)
        ⊎ ((p : RequestPayload D) × (env.payload ≡ some p) × (validate p ≢ none)))
      × (r.error ≢ none)
      × (r.notified ≡ [])
      × (r.metrics ≡ [])

  -- Any other: one call, one metric that tells its answer, for the event and the consumer of the
  -- payload; the error is that of the call.
  abbrev pub IsCalled : Consumed D → Type 0
  IsCalled r =
      (p : RequestPayload D) × (m : ConsumerMetric) × (env.payload ≡ some p)
      × (validate p ≡ none)
      × (r.notified ≡ notification env validate opt lag p ∷ [])
      × (r.metrics ≡ m ∷ [])
      × (m.topic_name ≡ p.event_name)
      × (m.consumer_name ≡ p.consumer.service_name)
      × ((m.ack ≡ true) ↔ (env.notify (notification env validate opt lag p) ≡ none))
      × ((r.error ≡ none) ↔ (env.notify (notification env validate opt lag p) ≡ none))

  after_notify-IsCalled :
      (p : RequestPayload D) (r : Option String)
      → env.payload ≡ some p
      → validate p ≡ none
      → env.notify (notification env validate opt lag p) ≡ r
      → IsCalled (after_notify env validate opt lag p r)
  unfolding after_notify insert_consumer_insights
  after_notify-IsCalled p none d v n = (
    p,
    insert_consumer_insights env validate opt lag p true,
    d,
    v,
    refl,
    refl,
    refl,
    refl,
    ((λ _. n), (λ _. refl)),
    ((λ _. n), (λ _. refl)),
  )
  after_notify-IsCalled p (some err) d v n = (
    p,
    insert_consumer_insights env validate opt lag p false,
    d,
    v,
    refl,
    refl,
    refl,
    refl,
    ((λ h. cc), (λ h. cc (n, h))),
    ((λ h. cc), (λ h. cc (n, h))),
  )

  after_validate_outcome :
      (p : RequestPayload D) (r : Option String)
      → env.payload ≡ some p
      → validate p ≡ r
      → IsStopped (after_validate env validate opt lag p r)
        ⊎ IsCalled (after_validate env validate opt lag p r)
  unfolding after_validate
  after_validate_outcome p (some err) d v =
      inl (inr (p, d, (λ h. cc (v, h))), (λ h. cc), refl, refl)
  after_validate_outcome p none d v =
      inr (after_notify-IsCalled p (env.notify (notification env validate opt lag p)) d v refl)

  after_payload_outcome :
      (o : Option (RequestPayload D))
      → env.payload ≡ o
      → IsStopped (after_payload env validate opt lag o)
        ⊎ IsCalled (after_payload env validate opt lag o)
  unfolding after_payload
  after_payload_outcome none d = inl (inl d, (λ h. cc), refl, refl)
  after_payload_outcome (some p) d = after_validate_outcome p (validate p) d refl

-- A delivery whose body cannot be read or whose payload is refused calls no webhook, stores no metric
-- and returns an error. Any other calls the webhook of its consumer once, with the consumer's headers
-- merged into the payload's, stores one metric for the event and the consumer, and returns no error
-- exactly where the call returned none, which is also when the metric says success.
pub request_handle_outcome :
    {D : Type 0} (env : ConsumerEnv D) (validate : RequestPayload D → Option String) (opt : Kind)
    (lag : RequestPayload D → List (ℕ × ℕ))
    → let r = request_handle env validate opt lag in
      IsStopped env validate opt lag r ⊎ IsCalled env validate opt lag r
unfolding request_handle
request_handle_outcome env validate opt lag =
    after_payload_outcome env validate opt lag env.payload refl
