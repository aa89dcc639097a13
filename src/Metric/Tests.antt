-- ===== src/Metric/Tests.antt =====
-- The insights of four metrics.
use gqueue.Common.{
  ℕ, true, false, ◌≡◌, string_Eq, none, some, List, [], ◌∷◌, lookup, count_if, arith,
}
use gqueue.Metric.{Metric, insights}
use gqueue.Metric.Rates.{requests, AllSeries, insights_rates}
use gqueue.Float64.{constant_99, constant_75}
use gqueue.Metric.Percentiles.{Separates, percentile_covers}
use gqueue.Metric.FirstDuration.{insights_percentiles}

abbrev published_in : ℕ → Metric
published_in d = record {
  topic_name = "payment.charged";
  consumer_name = "";
  time_started = 0;
  time_ended = 120000000000;
  time_duration_ms = d;
  ack = true;
}

abbrev consumed_in : ℕ → Metric
consumed_in d = record (published_in d) { consumer_name = "billing"; ack = false }

abbrev stored : List Metric
stored = published_in 5 ∷ consumed_in 7 ∷ published_in 900 ∷ consumed_in 8 ∷ []

insights_rates_example :
    let i = insights stored in
    (requests "payment.charged" i.rpm_publisher ≡ 2)
    × (requests "payment.charged" i.rpm_consumer ≡ 0)
    × AllSeries i.rpm_publisher
    × AllSeries i.rpm_consumer
unfolding count_if gqueue.Topic.append
insights_rates_example = insights_rates stored "payment.charged"

percentile_covers_example :
    Separates constant_99 99 (5 ∷ 900 ∷ 6 ∷ 7 ∷ [])
    × Separates constant_75 75 (5 ∷ 900 ∷ 6 ∷ 7 ∷ [])
percentile_covers_example = percentile_covers 5 (900 ∷ 6 ∷ 7 ∷ []) (omega arith)

insights_percentiles_example :
    let i = insights stored in
    (lookup "payment.charged" i.p99_published ≡ some 5)
    × (lookup "payment.charged" i.p75_published ≡ some 5)
    × (lookup "payment.charged" i.p99_consumed ≡ none)
    × (lookup "payment.charged" i.p75_consumed ≡ none)
unfolding gqueue.Topic.append
insights_percentiles_example = insights_percentiles stored "payment.charged"
