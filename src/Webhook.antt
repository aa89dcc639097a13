-- ===== src/Webhook.antt =====
-- The consumer of request messages that internal/app/pubsubapp and internal/app/taskapp each have
-- (consumer_handle.go). The two copies differ in the validation of the payload, `validate`, in the
-- kind of webhook call, `opt`, and in the lag that the first one records, `lag`.
pub mod Calls
mod Tests
use gqueue.Common.{
  ℕ, String, Bool, true, false, ◌≡◌, ◌≢◌, ◌↔◌, Option, none, some, List, [], ◌∷◌, Dict, refl, arith,
  ap, ◌∙◌, ◌⊎◌, inl, inr,
}
use gqueue.Event.{Consumer}
use gqueue.Fetch.{Kind}
use gqueue.Publisher.{RequestPayload, merge_headers, duration_ms}

pub record ConsumerMetric : Type 0 where
  pub topic_name : String
  pub consumer_name : String
  pub time_started : ℕ
  pub time_ended : ℕ
  pub time_duration_ms : ℕ
  pub ack : Bool

-- fmt.Errorf("get payload: …"), fmt.Errorf("validate payload: …"), fmt.Errorf("fetch consumer: …")
pub data HandleError : Type 0 where
  get_payload : HandleError
  validate_payload : String → HandleError
  fetch_consumer : String → HandleError

module _ (D : Type 0) where
  -- One call of `fetch.Notify`.
  pub record Notification : Type 0 where
    pub content : Option D
    pub headers : Dict String String
    pub consumer : Consumer
    pub opt : Kind

  pub record ConsumerEnv : Type 0 where
    -- what `c.Payload()` gives, `none` for its error
    pub payload : Option (RequestPayload D)
    pub notify : Notification → Option String
    pub started : ℕ
    pub finished : ℕ

  -- `lags` has the start of the delivery and the time of the publication; `successes` is the
  -- attribute of the recorded durations.
  pub record Consumed : Type 0 where
    pub error : Option HandleError
    pub notified : List Notification
    pub metrics : List ConsumerMetric
    pub lags : List (ℕ × ℕ)
    pub successes : List Bool

module _ {D : Type 0} (env : ConsumerEnv D) (validate : RequestPayload D → Option String)
    (opt : Kind) (lag : RequestPayload D → List (ℕ × ℕ)) where
  -- insertInsights
  unfoldable pub insert_consumer_insights : RequestPayload D → Bool → ConsumerMetric
  insert_consumer_insights payload is_success = record {
    topic_name = payload.event_name;
    consumer_name = payload.consumer.service_name;
    time_started = env.started;
    time_ended = env.finished;
    time_duration_ms = duration_ms env.started env.finished;
    ack = is_success;
  }

  -- The call that is made for a payload.
  unfoldable pub notification : RequestPayload D → Notification D
  notification payload = record {
    content = payload.content;
    headers = merge_headers payload.headers payload.consumer.headers;
    consumer = payload.consumer;
    opt = opt;
  }

  -- What follows the answer of `fetch.Notify`.
  unfoldable pub after_notify : RequestPayload D → Option String → Consumed D
  after_notify payload (some err) = record {
    error = some (fetch_consumer err);
    notified = notification payload ∷ [];
    metrics = insert_consumer_insights payload false ∷ [];
    lags = [];
    successes = false ∷ [];
  }
  after_notify payload none = record {
    error = none;
    notified = notification payload ∷ [];
    metrics = insert_consumer_insights payload true ∷ [];
    lags = lag payload;
    successes = true ∷ [];
  }

  abbrev pub stopped : HandleError → Consumed D
  stopped e = record { error = some e; notified = []; metrics = []; lags = []; successes = [] }

  unfoldable pub after_validate : RequestPayload D → Option String → Consumed D
  after_validate payload (some err) = stopped (validate_payload err)
  after_validate payload none = after_notify payload (env.notify (notification payload))

  unfoldable pub after_payload : Option (RequestPayload D) → Consumed D
  after_payload none = stopped get_payload
  after_payload (some payload) = after_validate payload (validate payload)

  -- The handler that `GetRequestHandle` returns.
  unfoldable pub request_handle : Consumed D
  request_handle = after_payload env.payload
