-- ===== src/Subscriber.antt =====
-- cmd/setup/pubsub/consumer.go: what a subscriber does before it receives messages, and how it and
-- the consumer end. The answers of the broker are the environment.
pub mod Registration
mod Tests
use gqueue.Common.{
  ℕ, String, Bool, true, false, Option, none, some, List, [], ◌∷◌, ◌*◌, ltb, if◌then◌else◌,
}
use gqueue.Topic.{
  build_topic_name, build_subscription_name, project_id, event_queue_dead_letter,
  event_queue_request_to_external,
}
use gqueue.Fetch.{second}
use gqueue.Common.{Try, ok, error}

-- The calls of the Pub/Sub client.
pub data Call : Type 0 where
  topic_exists : String → Call
  create_topic : String → Call
  subscription_exists : String → Call
  -- the subscription, its topic, and the deadline of an acknowledgement in nanoseconds
  create_subscription : String → String → ℕ → Call
  receive : String → Call

pub record Broker : Type 0 where
  pub has_topic : String → Try Bool
  pub makes_topic : String → Option String
  pub has_subscription : String → Try Bool
  pub makes_subscription : String → Option String

module _ (broker : Broker) (topic_name : String) where
  abbrev pub subscription_name : String
  subscription_name = build_subscription_name topic_name

  abbrev pub after_create_subscription : Option String → List Call
  after_create_subscription (some err) = []
  after_create_subscription none = receive subscription_name ∷ []

  abbrev pub after_subscription_exists : Try Bool → List Call
  after_subscription_exists (error err) = []
  after_subscription_exists (ok true) = receive subscription_name ∷ []
  after_subscription_exists (ok false) =
      create_subscription subscription_name topic_name (20 * second)
      ∷ after_create_subscription (broker.makes_subscription subscription_name)

  -- What follows once the topic is there.
  unfoldable pub subscribe : List Call
  subscribe =
      subscription_exists subscription_name
      ∷ after_subscription_exists (broker.has_subscription subscription_name)

  abbrev pub after_create_topic : Option String → List Call
  after_create_topic (some err) = []
  after_create_topic none = subscribe

  abbrev pub after_topic_exists : Try Bool → List Call
  after_topic_exists (error err) = []
  after_topic_exists (ok true) = subscribe
  after_topic_exists (ok false) =
      create_topic topic_name ∷ after_create_topic (broker.makes_topic topic_name)

  -- One of the goroutines: an error ends it.
  unfoldable pub start_subscriber : List Call
  unfolding subscribe
  start_subscriber = topic_exists topic_name ∷ after_topic_exists (broker.has_topic topic_name)

-- The topics of the two handlers.
unfoldable pub handler_topics : List String
unfolding build_topic_name
handler_topics =
    build_topic_name project_id event_queue_dead_letter
    ∷ build_topic_name project_id event_queue_request_to_external
    ∷ []

-- pubsub.ReceiveSettings; the extension is in nanoseconds.
pub record ReceiveSettings : Type 0 where
  pub max_extension : ℕ
  pub max_outstanding_messages : ℕ
  pub max_outstanding_bytes : ℕ
  pub num_goroutines : ℕ

unfoldable pub receive_settings : ℕ → ReceiveSettings
receive_settings concurrency = record {
  max_extension = 3600 * second;
  max_outstanding_messages = 1000;
  max_outstanding_bytes = 1000000000;
  num_goroutines = concurrency;
}

-- How a subscriber's goroutine ends, as its last line says
pub data SubscriberEnd : Type 0 where
  -- before it received, or without an error of Receive
  silent shut_down : SubscriberEnd
  stopped_by : String → SubscriberEnd

-- What follows Receive, which returns an error or nil, where the context is cancelled or not.
unfoldable pub after_receive : Option String → Bool → SubscriberEnd
after_receive none cancelled = silent
after_receive (some err) true = shut_down
after_receive (some err) false = stopped_by err

-- How the consumer ends once the context is cancelled: the subscribers take so many nanoseconds each.
pub data ConsumerEnd : Type 0 where
  all_stopped timed_out : ConsumerEnd

abbrev pub slowest : List ℕ → ℕ
slowest [] = 0
slowest (t ∷ ts) = let rest = slowest ts in if ltb rest t then t else rest

-- The select of `done`, which wg.Wait closes, and of a timer of 30 seconds; at the same instant either
-- may be taken, and here it is `done`.
unfoldable pub await_subscribers : List ℕ → ConsumerEnd
await_subscribers times = if ltb (30 * second) (slowest times) then timed_out else all_stopped
