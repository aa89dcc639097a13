-- ===== src/TaskApp.antt =====
-- internal/app/taskapp: the HTTP publisher of tasks and their consumer.
pub mod Consuming
pub mod Dispatch
mod Tests
use gqueue.Common.{
  ℕ, Option, none, some, String, Bool, List, [], ◌∷◌, ◌==◌, string_Eq, if◌then◌else◌,
}
use gqueue.Topic.{build_topic_name, project_id, event_queue_request_to_external}
use gqueue.Event.{Consumer, Event, AsynqOption, to_asynq_options, defined_opts}
use gqueue.Fetch.{Kind, long_running}
use gqueue.Webhook.{ConsumerEnv, Consumed, request_handle}
use gqueue.Publisher.{
  InternalPayload, RequestPayload, Publication, PublisherEnv, Published, publisher,
}

abbrev pub request_topic : String
request_topic = build_topic_name project_id event_queue_request_to_external

module _ {D : Type 0} where
  -- The publication for one consumer: `PublishedAt` stays zero and the attributes are empty.
  unfoldable pub publication : InternalPayload D → Event → ℕ → Consumer → Publication D
  publication payload event i consumer = record {
    topic = request_topic;
    input = record {
      event_name = event.name;
      consumer = record {
        service_name = consumer.service_name;
        base_url = consumer.base_url;
        path = consumer.path;
        headers = consumer.headers;
      };
      content = payload.content;
      headers = payload.metadata.headers;
      published_at = 0;
    };
    attributes = [];
    asynq_opts = to_asynq_options event.option;
  }

  -- The handler of `PublisherEvent`.
  unfoldable pub publisher_event : PublisherEnv D → Published D
  publisher_event env = publisher env publication 202

  -- RequestPayload.Validate; `none` is the nil error.
  unfoldable pub validate_request : RequestPayload D → Option String
  validate_request p =
      if p.event_name == ""
      then some "event_name is required"
      else if p.consumer.base_url == ""
      then some "consumer.base_url is required"
      else none

  -- The handler of `GetRequestHandle`: no lag is recorded.
  unfoldable pub get_request_handle : ConsumerEnv D → Consumed D
  unfolding validate_request
  get_request_handle env = request_handle env validate_request long_running (λ payload. [])

-- The task that `Task.Publish` enqueues: type, payload and options.
pub record Enqueued : Type 0 where
  pub task_type : String
  pub payload : String
  pub options : List AsynqOption

-- The outcome of `Task.Publish`, and the task where one was handed to the client.
pub data Enqueuing : Type 0 where
  could_not_marshal : Enqueuing
  could_not_schedule : String → Enqueued → Enqueuing
  enqueued : Enqueued → Enqueuing

module _ {D : Type 0} (marshal : RequestPayload D → Option String)
    (enqueue : Enqueued → Option String) where
  abbrev pub after_enqueue : Enqueued → Option String → Enqueuing
  after_enqueue task none = enqueued task
  after_enqueue task (some err) = could_not_schedule err task

  abbrev pub after_marshal : Publication D → Option String → Enqueuing
  after_marshal p none = could_not_marshal
  after_marshal p (some body) =
      let task : Enqueued = record {
        task_type = p.topic;
        payload = body;
        options = defined_opts p.asynq_opts;
      } in
      after_enqueue task (enqueue task)

  -- Task.Publish
  unfoldable pub publish_task : Publication D → Enqueuing
  publish_task p = after_marshal p (marshal p.input)
