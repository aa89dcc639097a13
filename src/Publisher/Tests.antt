-- ===== src/Publisher/Tests.antt =====
-- A publisher whose broker refuses the second publication.
use gqueue.Common.{◌≡◌, refl, true, [], ◌∷◌, string_Eq}
use gqueue.Publisher.{PublisherMetric, publisher, validate_payload}
use gqueue.Publisher.Serving.{ByStatus, publisher-ByStatus, publisher_metric}
use gqueue.TaskApp.{publication}
use gqueue.Samples.{payload, publisher_env}

publisher-ByStatus_example :
    ByStatus publisher_env publication 202 (publisher publisher_env publication 202)
publisher-ByStatus_example = publisher-ByStatus publisher_env publication 202

publisher_metric_example :
    (m : PublisherMetric) × ((publisher publisher_env publication 202).metrics ≡ m ∷ [])
    × (m.ack ≡ true)
    × (m.topic_name ≡ "payment.charged")
unfolding validate_payload
publisher_metric_example = publisher_metric publisher_env publication 202 payload refl refl
