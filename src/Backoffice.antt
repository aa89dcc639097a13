-- ===== src/Backoffice.antt =====
-- internal/app/backofficeapp: the handlers of the administration API. Decoding, the encoder, the
-- repository and `uuid.Parse` are what the environment answers; the configuration is a parameter.
pub mod Saving
pub mod Answers
mod Tests
use gqueue.Common.{
  ℕ, String, Bool, true, false, Option, none, some, List, [], ◌∷◌, ◌++◌, Try, ok, error,
}
use gqueue.Http.{WriterCall, set_header, write_header, write, http_error}
use gqueue.Event.{Consumer, Opt, Event, Invalid, validate}
use gqueue.MemStore.{Answer, found, not_found, failed}
use gqueue.Metric.{Metric, Insights, insights}

pub record EventDto : Type 0 where
  pub name : String
  pub type : String
  pub option : Opt
  pub consumers : List Consumer

-- EventDto.ToDomain, with the new UUID and the configured service name
abbrev pub to_domain : String → String → EventDto → Event
to_domain id internal_service_name e = record {
  id = id;
  name = e.name;
  service_name = internal_service_name;
  state = "";
  type = e.type;
  option = e.option;
  consumers = e.consumers;
}

-- What a handler writes and what it does to the repository.
pub record Handled : Type 0 where
  pub calls : List WriterCall
  pub upserts : List Event
  pub disabled : List String

abbrev pub only : List WriterCall → Handled
only calls = record { calls = calls; upserts = []; disabled = [] }

-- json.NewEncoder(w).Encode: the body, or the error that `http.Error` then reports.
abbrev pub encoded : Try String → (String → String) → List WriterCall
encoded (ok body) msg = write body ∷ []
encoded (error err) msg = http_error (msg err) 500

module _ (max_consumers : ℕ) (id internal_service_name : String) (invalid_text : Invalid → String)
    (upsert : Event → Option String) (encode : EventDto → Try String) where
  abbrev pub after_upsert : EventDto → Event → Option String → Handled
  after_upsert payload event (some err) = record {
    calls = http_error "failed to save consumer" 500;
    upserts = event ∷ [];
    disabled = [];
  }
  after_upsert payload event none = record {
    calls = write_header 200 ∷ encoded (encode payload) (λ err. "failed to encode response");
    upserts = event ∷ [];
    disabled = [];
  }

  abbrev pub after_validate : EventDto → Event → Option Invalid → Handled
  after_validate payload event (some why) = only (http_error (invalid_text why) 400)
  after_validate payload event none = after_upsert payload event (upsert event)

  -- The handler of `SaveConsumerHandle` on the decoded body.
  unfoldable pub save_consumer_handle : Try EventDto → Handled
  save_consumer_handle (error err) = only (http_error err 400)
  save_consumer_handle (ok payload) =
      let event = to_domain id internal_service_name payload in
      after_validate payload event (validate max_consumers event)

module _ (upsert : Event → Option String) where
  abbrev pub refused_upsert : Option String → List WriterCall
  refused_upsert none = []
  refused_upsert (some err) = http_error "failed to upsert internal event" 500

  -- The handler of `GetRegisterTaskConsumerArchived`: it goes on after a failed upsert.
  unfoldable pub register_task_consumer_archived : Try Event → Handled
  register_task_consumer_archived (error err) = only (http_error err 400)
  register_task_consumer_archived (ok payload) =
      let event = record payload { state = "archived" } in
      record {
        calls = refused_upsert (upsert event) ++ write_header 201 ∷ [];
        upserts = event ∷ [];
        disabled = [];
      }

-- err.Error() of the store's errors
abbrev pub answer_error : Answer Event → Option String
answer_error (found e) = none
answer_error not_found = some "event not found"
answer_error (failed err) = some err

module _ (encode : Event → Try String) where
  -- The handler of `GetEvent`: any error of the store is a 500.
  unfoldable pub get_event_handle : Answer Event → Handled
  get_event_handle (found e) = only (write_header 200 ∷ encoded (encode e) (λ err. err))
  get_event_handle not_found = only (http_error "event not found" 500)
  get_event_handle (failed err) = only (http_error err 500)

module _ {F : Type 0} (get_internal_events : F → Try (List Event))
    (encode : List Event → Try String) where
  abbrev pub after_events : Try (List Event) → Handled
  after_events (error err) = only (http_error err 500)
  after_events (ok events) = only (write_header 200 ∷ encoded (encode events) (λ err. err))

  -- The handler of `GetEvents` on the parsed filter.
  unfoldable pub get_events_handle : Try F → Handled
  get_events_handle (error err) = only (http_error err 400)
  get_events_handle (ok filter) = after_events (get_internal_events filter)

module _ (parse : String → Option String) (disabled_event : String → Option String) where
  abbrev pub after_disabled : String → Option String → Handled
  after_disabled id (some err) = record {
    calls = http_error "Failed to remove event" 500;
    upserts = [];
    disabled = id ∷ [];
  }
  after_disabled id none = record {
    calls = write_header 204 ∷ [];
    upserts = [];
    disabled = id ∷ [];
  }

  abbrev pub after_parse : Option String → Handled
  after_parse none = only (http_error "Invalid event ID" 400)
  after_parse (some id) = after_disabled id (disabled_event id)

  -- The handler of `RemoveEvent` on the path value.
  unfoldable pub remove_event : String → Handled
  remove_event path_id = after_parse (parse path_id)

-- The handler of `GetInsightsHandle`; the error of the encoder is not read, and `encode` then writes
-- nothing.
unfoldable pub get_insights_handle : (Insights → String) → Try (List Metric) → List WriterCall
unfolding insights
get_insights_handle encode (error err) = http_error err 500
get_insights_handle encode (ok metrics) =
    set_header "Content-Type" "application/json" ∷ write (encode (insights metrics)) ∷ []
