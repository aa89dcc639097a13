-- ===== src/Publisher.antt =====
-- The HTTP publisher that internal/app/pubsubapp and internal/app/taskapp each have
-- (publisher_handle_http.go, internal_payload*.go): the two copies differ in the publication that they
-- make for a consumer, `make`, and in the status of success, `accepted`.
--
-- `D` stands for the JSON objects that travel through (`map[string]any`). Decoding a body, the store,
-- the publisher and the clock are what the environment answers. Times are in nanoseconds.
pub mod Strategy
pub mod Serving
pub mod Headers
mod Tests
use gqueue.Common.{
  ℕ, suc, ◌-◌, ◌/◌, String, Bool, true, false, Option, none, some, List, [], ◌∷◌, ◌++◌, ◌==◌,
  if◌then◌else◌, Dict, insert_all, string_Eq,
}
use gqueue.Http.{WriterCall, write_header, http_error}
use gqueue.Topic.{build_topic_name, project_id, event_queue_request_to_external}
use gqueue.Event.{Consumer, Event, AsynqOption, to_asynq_options}
use gqueue.MemStore.{Answer, found, not_found, failed}

pub record Metadata : Type 0 where
  pub source : String
  pub version : String
  pub environment : String
  pub headers : Option (Dict String String)

module _ (D : Type 0) where
  pub record InternalPayload : Type 0 where
    pub event_name : String
    pub content : Option D
    pub metadata : Metadata

  pub record RequestPayload : Type 0 where
    pub event_name : String
    pub consumer : Consumer
    pub content : Option D
    pub headers : Option (Dict String String)
    pub published_at : ℕ

pub record PublisherMetric : Type 0 where
  pub topic_name : String
  pub time_started : ℕ
  pub time_ended : ℕ
  pub time_duration_ms : ℕ
  pub ack : Bool

module _ (D : Type 0) where
  -- One call of `adaptpub.Publish`: topic, payload, and the fields of `pubadapter.Opts`.
  pub record Publication : Type 0 where
    pub topic : String
    pub input : RequestPayload D
    pub attributes : Dict String String
    pub asynq_opts : List AsynqOption

  pub record PublisherEnv : Type 0 where
    -- the decoded body, or the decoder's error
    pub decoded : Option (InternalPayload D)
    pub decode_error : String
    pub get_event : String → Answer Event
    -- the error of the `i`th publication
    pub publish : ℕ → Publication → Option String
    -- the clock at the `i`th consumer
    pub now : ℕ → ℕ
    pub started : ℕ
    pub finished : ℕ

  pub record Published : Type 0 where
    pub calls : List WriterCall
    pub publications : List Publication
    pub metrics : List PublisherMetric

-- finished.Sub(started).Milliseconds()
abbrev pub duration_ms : ℕ → ℕ → ℕ
duration_ms started finished = (finished - started) / 1000000

abbrev pub request_topic : String
request_topic = build_topic_name project_id event_queue_request_to_external

abbrev pub or_map : Option (Dict String String) → Dict String String
or_map none = []
or_map (some m) = m

-- RequestPayload.mergeHeaders, on the payload's own headers and the argument.
unfoldable pub merge_headers :
    Option (Dict String String) → Option (Dict String String) → Dict String String
merge_headers own headers = insert_all (or_map headers) (or_map own)

-- The response after the loop.
abbrev pub respond : ℕ → Option String → List WriterCall
respond accepted none = write_header accepted ∷ []
respond accepted (some err) = http_error "failed to publish event" 500

module _ {D : Type 0} where
  -- InternalPayload.Validate; `none` is the nil error.
  unfoldable pub validate_payload : InternalPayload D → Option String
  validate_payload p =
      if p.event_name == ""
      then some "event name is required"
      else (elim p.content [ none ↦ some "data is required" | some d ↦ none ])

  -- One round of the loop: an error ends it, and what the later rounds give is not used.
  abbrev pub after_publish :
      Publication D
      → Option String
      → List (Publication D) × Option String
      → List (Publication D) × Option String
  after_publish p (some err) rest = (p ∷ [], some err)
  after_publish p none rest = (p ∷ rest.0, rest.1)

  abbrev pub refused : String → Published D
  refused msg = record { calls = http_error msg 400; publications = []; metrics = [] }

module _ {D : Type 0} (env : PublisherEnv D)
    (make : InternalPayload D → Event → ℕ → Consumer → Publication D) (accepted : ℕ) where
  -- The loop over `event.Consumers`: the publications made, and the error that stopped it.
  unfoldable pub publish_all :
      InternalPayload D → Event → ℕ → List Consumer → List (Publication D) × Option String
  publish_all payload event i [] = ([], none)
  publish_all payload event i (consumer ∷ consumers) =
      let input = make payload event i consumer in
      after_publish input (env.publish i input) (publish_all payload event (suc i) consumers)

  -- `insertInsights`: its argument `isSuccess` is not used.
  unfoldable pub insert_insights : InternalPayload D → Bool → PublisherMetric
  insert_insights payload is_success = record {
    topic_name = payload.event_name;
    time_started = env.started;
    time_ended = env.finished;
    time_duration_ms = duration_ms env.started env.finished;
    ack = true;
  }

  -- The handler behind validation. The deferred `insertInsights` has its arguments from before the
  -- lookup, where `err == nil`.
  unfoldable pub publish_valid : InternalPayload D → Answer Event → Published D
  publish_valid payload not_found = record {
    calls = http_error "event not found" 404;
    publications = [];
    metrics = insert_insights payload true ∷ [];
  }
  publish_valid payload (failed err) = record {
    calls = http_error "failed to get event" 500;
    publications = [];
    metrics = insert_insights payload true ∷ [];
  }
  publish_valid payload (found event) =
      let (publications, err) = publish_all payload event 0 event.consumers in
      record {
        calls = respond accepted err;
        publications = publications;
        metrics = insert_insights payload true ∷ [];
      }

  abbrev pub after_validation : InternalPayload D → Option String → Published D
  after_validation payload (some err) = refused err
  after_validation payload none = publish_valid payload (env.get_event payload.event_name)

  abbrev pub after_decoding : Option (InternalPayload D) → Published D
  after_decoding none = refused env.decode_error
  after_decoding (some payload) = after_validation payload (validate_payload payload)

  -- The handler that `PublisherEvent` returns.
  unfoldable pub publisher : Published D
  publisher = after_decoding env.decoded
