-- ===== src/Storests/Tests.antt =====
-- A metric that is stored and read in memory.
use gqueue.Common.{String, true, ◌≡◌, refl, Option, none, some, []}
use gqueue.Publisher.{PublisherMetric}
use gqueue.Webhook.{ConsumerMetric}
use gqueue.Metric.{Metric}
use gqueue.Storests.{consumed, published, get_all}
use gqueue.Storests.Laws.{Memory, memory, memory-IsRedis}
use gqueue.Storests.Reading.{InRead, get_all-stored}

abbrev stored : Metric
stored = record {
  topic_name = "payment.charged";
  consumer_name = "billing";
  time_started = 0;
  time_ended = 5000000;
  time_duration_ms = 5;
  ack = true;
}

abbrev empty : Memory
empty = record { sets = []; sorted_sets = [] }

abbrev marshal_consumer : ConsumerMetric → Option String
marshal_consumer m = some "{}"

abbrev marshal_publisher : PublisherMetric → Option String
marshal_publisher m = some "{}"

abbrev unmarshal : String → Option Metric
unmarshal s = some stored

get_all-stored_example :
    ((input : ConsumerMetric)
      → marshal_consumer input ≡ some "{}"
      → (consumed memory 7 marshal_consumer 9 input empty).1 ≡ none
      → InRead memory unmarshal stored
          (get_all memory unmarshal 7 (consumed memory 7 marshal_consumer 9 input empty).0))
    × ((input : PublisherMetric)
        → marshal_publisher input ≡ some "{}"
        → (published memory 7 marshal_publisher 9 input empty).1 ≡ none
        → InRead memory unmarshal stored
            (get_all memory unmarshal 7 (published memory 7 marshal_publisher 9 input empty).0))
get_all-stored_example =
    get_all-stored memory memory-IsRedis 7 9 marshal_consumer marshal_publisher unmarshal "{}"
      stored empty (λ k m s. refl) refl
