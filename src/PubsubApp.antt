-- ===== src/PubsubApp.antt =====
-- internal/app/pubsubapp: the HTTP publisher, the consumer of requests, and the dead letter consumer.
pub mod Publishing
pub mod Consuming
pub mod DeadLetters
pub mod Retrying
mod Tests
use gqueue.Common.{ℕ, ◌/◌, Option, none, some, String, List, [], ◌∷◌}
use gqueue.Topic.{build_topic_name, project_id, event_queue_request_to_external}
use gqueue.Event.{Consumer, Event, to_asynq_options}
use gqueue.Fetch.{Kind, high_throughput}
use gqueue.Webhook.{ConsumerEnv, Consumed, request_handle}
use gqueue.Delivery.{Message, published_attributes}
use gqueue.Publisher.{
  InternalPayload, RequestPayload, Publication, PublisherEnv, Published, publisher,
}

-- time.UnixMilli
abbrev pub unix_milli : ℕ → ℕ
unix_milli now = now / 1000000

abbrev pub request_topic : String
request_topic = build_topic_name project_id event_queue_request_to_external

module _ {D : Type 0} (env : PublisherEnv D) where
  -- The publication for one consumer.
  unfoldable pub publication : InternalPayload D → Event → ℕ → Consumer → Publication D
  publication payload event i consumer = record {
    topic = request_topic;
    input = record {
      event_name = event.name;
      consumer = record {
        service_name = consumer.service_name;
        base_url = consumer.base_url;
        path = consumer.path;
        headers = consumer.headers;
      };
      content = payload.content;
      headers = payload.metadata.headers;
      published_at = unix_milli (env.now i);
    };
    attributes = ("topic", request_topic) ∷ ("max_retries", "1") ∷ [];
    asynq_opts = to_asynq_options event.option;
  }

  -- The handler of `PublisherEvent`.
  unfoldable pub publisher_event : Published D
  unfolding publication
  publisher_event = publisher env publication 201

module _ {D : Type 0} where
  -- The lag is recorded as the start of the delivery and the time of the publication.
  abbrev pub lag : ConsumerEnv D → RequestPayload D → List (ℕ × ℕ)
  lag env payload = (env.started, payload.published_at) ∷ []

  -- The handler of `GetRequestHandle`: the payload is not validated.
  unfoldable pub get_request_handle : ConsumerEnv D → Consumed D
  get_request_handle env = request_handle env (λ payload. none) high_throughput (lag env)

  -- The message that the subscription receives for a publication that `PubSubGoogle.Publish` sends.
  unfoldable pub request_message : (RequestPayload D → String) → String → Publication D → Message
  request_message marshal id p = record {
    id = id;
    body = marshal p.input;
    attributes = some (published_attributes p.topic p.attributes);
  }
