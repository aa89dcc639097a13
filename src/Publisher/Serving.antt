-- ===== src/Publisher/Serving.antt =====
-- What the publisher has done when it answers.
use gqueue.Common.{
  ℕ, suc, String, true, ◌≡◌, Option, none, some, List, [], ◌∷◌, ◌++◌, ◌⊎◌, refl, ap, ◌∙◌, inl, inr,
}
use gqueue.Http.{client_status}
use gqueue.Event.{Consumer, Event}
use gqueue.MemStore.{Answer, found, not_found, failed}
use gqueue.Publisher.{
  InternalPayload, Publication, PublisherEnv, Published, PublisherMetric, validate_payload,
  publish_all, after_publish, insert_insights, respond, publish_valid, after_validation,
  after_decoding, publisher,
}

-- One publication for each consumer, in order.
abbrev pub fan_out :
    {D : Type 0} → (ℕ → Consumer → Publication D) → ℕ → List Consumer → List (Publication D)
fan_out make i [] = []
fan_out make i (c ∷ cs) = make i c ∷ fan_out make (suc i) cs

-- `ps` begins `qs`.
abbrev pub Begins : {D : Type 0} → List (Publication D) → List (Publication D) → Type 0
Begins {D} ps qs = (rest : List (Publication D)) × (ps ++ rest ≡ qs)

module _ {D : Type 0} (env : PublisherEnv D) where
  -- Every publication from the `i`th on is taken.
  abbrev pub AllTaken : ℕ → List (Publication D) → Type 0
  AllTaken i [] = Unit
  AllTaken i (p ∷ ps) = (env.publish i p ≡ none) × AllTaken (suc i) ps

  -- All publications but the last are taken, and the last is answered by `err`.
  abbrev pub LastFails : String → ℕ → List (Publication D) → Type 0
  LastFails err i [] = ⊥
  LastFails err i (p ∷ []) = env.publish i p ≡ some err
  LastFails err i (p ∷ q ∷ ps) = (env.publish i p ≡ none) × LastFails err (suc i) (q ∷ ps)

module _ {D : Type 0} (env : PublisherEnv D)
    (make : InternalPayload D → Event → ℕ → Consumer → Publication D) (accepted : ℕ)
    (payload : InternalPayload D) (event : Event) where
  -- The loop's result against the list of all publications.
  abbrev pub IsOutcome : ℕ → List Consumer → List (Publication D) → Option String → Type 0
  IsOutcome i cs ps none = (ps ≡ fan_out (make payload event) i cs) × AllTaken env i ps
  IsOutcome i cs ps (some err) =
      Begins ps (fan_out (make payload event) i cs) × LastFails env err i ps

  IsOutcome-cons :
      (i : ℕ) (c : Consumer) (cs : List Consumer) (ps : List (Publication D)) (r : Option String)
      → env.publish i (make payload event i c) ≡ none
      → IsOutcome (suc i) cs ps r
      → IsOutcome i (c ∷ cs) (make payload event i c ∷ ps) r
  IsOutcome-cons i c cs ps none taken (same, all) =
      (ap (λ l. make payload event i c ∷ l) same, (taken, all))
  IsOutcome-cons i c cs [] (some err) taken (begins, fails) = absurd fails
  IsOutcome-cons i c cs (p ∷ ps) (some err) taken ((rest, same), fails) =
      ((rest, ap (λ l. make payload event i c ∷ l) same), (taken, fails))

  after_publish-IsOutcome :
      (i : ℕ) (c : Consumer) (cs : List Consumer) (r : Option String)
      (rest : List (Publication D) × Option String)
      → let p = make payload event i c in
        env.publish i p ≡ r
        → IsOutcome (suc i) cs rest.0 rest.1
        → IsOutcome i (c ∷ cs) (after_publish p r rest).0 (after_publish p r rest).1
  after_publish-IsOutcome i c cs none rest taken h = IsOutcome-cons i c cs rest.0 rest.1 taken h
  after_publish-IsOutcome i c cs (some err) rest fails h =
      ((fan_out (make payload event) (suc i) cs, refl), fails)

  pub publish_all-IsOutcome :
      (i : ℕ) (cs : List Consumer)
      → let r = publish_all env make accepted payload event i cs in IsOutcome i cs r.0 r.1
  unfolding publish_all
  publish_all-IsOutcome i [] = (refl, tt)
  publish_all-IsOutcome i (c ∷ cs) =
      after_publish-IsOutcome i c cs (env.publish i (make payload event i c))
        (publish_all env make accepted payload event (suc i) cs) refl
        (publish_all-IsOutcome (suc i) cs)

module _ {D : Type 0} (env : PublisherEnv D)
    (make : InternalPayload D → Event → ℕ → Consumer → Publication D) (accepted : ℕ) where
  -- A request that was served in full.
  pub record IsServed (ps : List (Publication D)) : Type 0 where
    pub payload : InternalPayload D
    pub event : Event
    pub decoded : env.decoded ≡ some payload
    pub valid : validate_payload payload ≡ none
    pub known : env.get_event payload.event_name ≡ found event
    pub fanned_out : ps ≡ fan_out (make payload event) 0 event.consumers
    pub taken : AllTaken env 0 ps

  -- A request of which a publication failed.
  pub record IsCutShort (ps : List (Publication D)) : Type 0 where
    pub payload : InternalPayload D
    pub event : Event
    pub error : String
    pub decoded : env.decoded ≡ some payload
    pub valid : validate_payload payload ≡ none
    pub known : env.get_event payload.event_name ≡ found event
    pub begins : Begins ps (fan_out (make payload event) 0 event.consumers)
    pub fails : LastFails env error 0 ps

  -- What the handler did, by the status that the client sees.
  abbrev pub ByStatus : Published D → Type 0
  ByStatus r =
      ((client_status r.calls ≡ accepted) × IsServed r.publications)
      ⊎ (((client_status r.calls ≡ 500) × ((r.publications ≡ []) ⊎ IsCutShort r.publications))
          ⊎ (((client_status r.calls ≡ 404) ⊎ (client_status r.calls ≡ 400))
              × (r.publications ≡ [])))

  respond-ByStatus :
      (payload : InternalPayload D) (event : Event) (ps : List (Publication D)) (r : Option String)
      (m : List PublisherMetric)
      → env.decoded ≡ some payload
      → validate_payload payload ≡ none
      → env.get_event payload.event_name ≡ found event
      → IsOutcome env make accepted payload event 0 event.consumers ps r
      → ByStatus (record { calls = respond accepted r; publications = ps; metrics = m })
  unfolding client_status
  respond-ByStatus payload event ps none m d v k (same, taken) = inl (
    refl,
    record {
      payload = payload;
      event = event;
      decoded = d;
      valid = v;
      known = k;
      fanned_out = same;
      taken = taken;
    },
  )
  respond-ByStatus payload event ps (some err) m d v k (begins, fails) = inr (
      inl (
        refl,
        inr (record {
          payload = payload;
          event = event;
          error = err;
          decoded = d;
          valid = v;
          known = k;
          begins = begins;
          fails = fails;
        }),
      ))

  publish_valid-ByStatus :
      (payload : InternalPayload D) (answer : Answer Event)
      → env.decoded ≡ some payload
      → validate_payload payload ≡ none
      → env.get_event payload.event_name ≡ answer
      → ByStatus (publish_valid env make accepted payload answer)
  unfolding publish_valid client_status
  publish_valid-ByStatus payload not_found d v k = inr (inr (inl refl, refl))
  publish_valid-ByStatus payload (failed err) d v k = inr (inl (refl, inl refl))
  publish_valid-ByStatus payload (found event) d v k =
      let r = publish_all env make accepted payload event 0 event.consumers in
      respond-ByStatus payload event r.0 r.1 (insert_insights env make accepted payload true ∷ []) d
        v k (publish_all-IsOutcome env make accepted payload event 0 event.consumers)

  after_validation-ByStatus :
      (payload : InternalPayload D) (r : Option String)
      → env.decoded ≡ some payload
      → validate_payload payload ≡ r
      → ByStatus (after_validation env make accepted payload r)
  unfolding client_status
  after_validation-ByStatus payload none d v =
      publish_valid-ByStatus payload (env.get_event payload.event_name) d v refl
  after_validation-ByStatus payload (some err) d v = inr (inr (inr refl, refl))

  after_decoding-ByStatus :
      (r : Option (InternalPayload D))
      → env.decoded ≡ r
      → ByStatus (after_decoding env make accepted r)
  unfolding client_status
  after_decoding-ByStatus none d = inr (inr (inr refl, refl))
  after_decoding-ByStatus (some payload) d =
      after_validation-ByStatus payload (validate_payload payload) d refl

-- The publisher answers with the status of success only where the body was decoded and valid, the
-- event was found, and one publication for each of its consumers, in order, was taken. It answers
-- 500 with no publication made, or, where the body was decoded and valid and the event was found,
-- with the first publications of that list made and the last of these refused. It answers 404 or 400 with no publication made. There is no other answer.
pub publisher-ByStatus :
    {D : Type 0} (env : PublisherEnv D)
    (make : InternalPayload D → Event → ℕ → Consumer → Publication D) (accepted : ℕ)
    → ByStatus env make accepted (publisher env make accepted)
unfolding publisher
publisher-ByStatus env make accepted = after_decoding-ByStatus env make accepted env.decoded refl

module _ {D : Type 0} (env : PublisherEnv D)
    (make : InternalPayload D → Event → ℕ → Consumer → Publication D) (accepted : ℕ) where
  metrics-publish_valid :
      (payload : InternalPayload D) (answer : Answer Event)
      → (publish_valid env make accepted payload answer).metrics
        ≡ insert_insights env make accepted payload true ∷ []
  unfolding publish_valid
  metrics-publish_valid payload not_found = refl
  metrics-publish_valid payload (failed err) = refl
  metrics-publish_valid payload (found event) = refl

-- For a body that is decoded and valid the publisher stores one metric, for the event's name, and
-- it says success whether the event was found, whether the store failed, and whatever the
-- publications answered.
pub publisher_metric :
    {D : Type 0} (env : PublisherEnv D)
    (make : InternalPayload D → Event → ℕ → Consumer → Publication D) (accepted : ℕ)
    (payload : InternalPayload D)
    → env.decoded ≡ some payload
    → validate_payload payload ≡ none
    → (m : PublisherMetric) × ((publisher env make accepted).metrics ≡ m ∷ [])
      × (m.ack ≡ true)
      × (m.topic_name ≡ payload.event_name)
unfolding publisher
publisher_metric env make accepted payload d v = (
  insert_insights env make accepted payload true,
  ap (λ r. (after_decoding env make accepted r).metrics) d
      ∙ ap (λ r. (after_validation env make accepted payload r).metrics) v
      ∙ metrics-publish_valid env make accepted payload (env.get_event payload.event_name),
  unfold insert_insights in refl,
  unfold insert_insights in refl,
)
