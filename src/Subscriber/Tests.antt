-- ===== src/Subscriber/Tests.antt =====
-- A broker without topics, which makes what it is asked for.
use gqueue.Common.{false, none, some, [], ◌∷◌, ◌*◌, ◌≡◌, refl}
use gqueue.Fetch.{second}
use gqueue.Common.{ok}
use gqueue.Subscriber.{Broker, await_subscribers, timed_out, after_receive, stopped_by}

abbrev fresh : Broker
fresh = record {
  has_topic = λ t. ok false;
  makes_topic = λ t. none;
  has_subscription = λ s. ok false;
  makes_subscription = λ s. none;
}

-- One subscriber that does not stop in time holds the consumer for 30 seconds and no longer.
slow_subscriber : await_subscribers (second ∷ 31 * second ∷ []) ≡ timed_out
unfolding await_subscribers
slow_subscriber = refl

receive_failed : after_receive (some "connection reset") false ≡ stopped_by "connection reset"
unfolding after_receive
receive_failed = refl
