-- ===== src/Middleware/Recorder.antt =====
-- When the status that the metrics record is the one that the client sees.
use gqueue.Common.{ℕ, String, ◌≡◌, refl, Option, none, some, List, [], ◌∷◌}
use gqueue.Http.{WriterCall, set_header, write_header, write, client_status}
use gqueue.Event.{Event, Consumer}
use gqueue.MemStore.{Answer, found, not_found, failed}
use gqueue.Publisher.{
  InternalPayload, Publication, PublisherEnv, validate_payload, publish_all, publish_valid,
  after_validation, after_decoding, publisher, respond,
}
use gqueue.Common.{ok}
use gqueue.Backoffice.{register_task_consumer_archived}
use gqueue.Middleware.{recorded_status}

-- No status is written.
abbrev pub NoStatus : List WriterCall → Type 0
NoStatus [] = Unit
NoStatus (set_header k v ∷ rest) = NoStatus rest
NoStatus (write_header code ∷ rest) = ⊥
NoStatus (write body ∷ rest) = NoStatus rest

-- At most one status is written, and no body before it.
abbrev pub OneStatus : List WriterCall → Type 0
OneStatus [] = Unit
OneStatus (set_header k v ∷ rest) = OneStatus rest
OneStatus (write_header code ∷ rest) = NoStatus rest
OneStatus (write body ∷ rest) = NoStatus rest

recorded_status-NoStatus :
    (code : ℕ) (calls : List WriterCall) → NoStatus calls → recorded_status code calls ≡ code
unfolding recorded_status
recorded_status-NoStatus code [] h = refl
recorded_status-NoStatus code (set_header k v ∷ rest) h = recorded_status-NoStatus code rest h
recorded_status-NoStatus code (write_header next ∷ rest) h = elim h [ ]
recorded_status-NoStatus code (write body ∷ rest) h = recorded_status-NoStatus code rest h

-- Where a handler writes at most one status, and no body before it, the recorded status is the one
-- that the client sees.
pub recorded_status-client_status :
    (calls : List WriterCall) → OneStatus calls → recorded_status 200 calls ≡ client_status calls
unfolding recorded_status client_status
recorded_status-client_status [] h = refl
recorded_status-client_status (set_header k v ∷ rest) h = recorded_status-client_status rest h
recorded_status-client_status (write_header code ∷ rest) h = recorded_status-NoStatus code rest h
recorded_status-client_status (write body ∷ rest) h = recorded_status-NoStatus 200 rest h

module _ {D : Type 0} (env : PublisherEnv D)
    (make : InternalPayload D → Event → ℕ → Consumer → Publication D) (accepted : ℕ) where
  respond-OneStatus : (err : Option String) → OneStatus (respond accepted err)
  respond-OneStatus none = tt
  respond-OneStatus (some err) = tt

  publish_valid-OneStatus :
      (payload : InternalPayload D) (answer : Answer Event)
      → OneStatus (publish_valid env make accepted payload answer).calls
  unfolding publish_valid
  publish_valid-OneStatus payload not_found = tt
  publish_valid-OneStatus payload (failed err) = tt
  publish_valid-OneStatus payload (found event) =
      respond-OneStatus (publish_all env make accepted payload event 0 event.consumers).1

  after_validation-OneStatus :
      (payload : InternalPayload D) (r : Option String)
      → OneStatus (after_validation env make accepted payload r).calls
  after_validation-OneStatus payload none =
      publish_valid-OneStatus payload (env.get_event payload.event_name)
  after_validation-OneStatus payload (some err) = tt

  after_decoding-OneStatus :
      (r : Option (InternalPayload D)) → OneStatus (after_decoding env make accepted r).calls
  after_decoding-OneStatus none = tt
  after_decoding-OneStatus (some payload) =
      after_validation-OneStatus payload (validate_payload payload)

  -- The metrics of the publisher record the status that the client sees.
  pub publisher-recorded_status :
      recorded_status 200 (publisher env make accepted).calls
      ≡ client_status (publisher env make accepted).calls
  unfolding publisher
  publisher-recorded_status =
      recorded_status-client_status (after_decoding env make accepted env.decoded).calls
        (after_decoding-OneStatus env.decoded)

registered :
    (upsert : Event → Option String) (e : Event) (u : Option String)
    → upsert (record e { state = "archived" }) ≡ u
    → let calls = (register_task_consumer_archived upsert (ok e)).calls in
      (recorded_status 200 calls ≡ 201)
      × (client_status calls ≡ (elim u [ none ↦ 201 | some err ↦ 500 ]))
unfolding register_task_consumer_archived recorded_status client_status
registered upsert e none h = rw h (refl, refl)
registered upsert e (some err) h = rw h (refl, refl)

-- The registration of an archived consumer is recorded as 201 for every body that decodes, while
-- the client sees 201 where the store took the event and 500 where it did not.
pub register_recorded :
    (upsert : Event → Option String) (e : Event)
    → let calls = (register_task_consumer_archived upsert (ok e)).calls in
      (recorded_status 200 calls ≡ 201)
      × (client_status calls
          ≡ (elim (upsert (record e { state = "archived" })) [ none ↦ 201 | some err ↦ 500 ]))
register_recorded upsert e = registered upsert e (upsert (record e { state = "archived" })) refl
