-- ===== src/Metric.antt =====
-- internal/domain/metric.go: the insights that the backoffice computes from the stored metrics.
--
-- Times are nanoseconds of the Unix epoch in UTC, durations whole milliseconds that are not negative.
-- The place of a percentile is computed in float64; durations are whole and exact. A percentage is
-- kept as its two totals, which its text is made of.
pub mod Totals
pub mod Rates
pub mod Percentiles
pub mod FirstDuration
mod Tests
use gqueue.Common.{
  ℕ, suc, ◌+◌, ◌-◌, ◌*◌, ◌/◌, String, Bool, true, false, ◌==◌, string_Eq, Option, none, some, List,
  [], ◌∷◌, ◌++◌, map, length, get_elem?, nat_eq, leb, ltb, if◌then◌else◌, Dict, lookup, insert,
  or_zero,
}
use gqueue.Topic.{append}
use gqueue.Float64.{one, constant_99, constant_75, times, ceil}

pub record Metric : Type 0 where
  pub topic_name : String
  pub consumer_name : String
  pub time_started : ℕ
  pub time_ended : ℕ
  pub time_duration_ms : ℕ
  pub ack : Bool

-- RPM: minutes, and how many requests each had.
pub record Rpm : Type 0 where
  pub timeseries : List ℕ
  pub values : List ℕ

pub record Insights : Type 0 where
  pub total_published : ℕ
  pub total_consumed : ℕ
  pub percentage_published_success : ℕ × ℕ
  pub percentage_consumed_success : ℕ × ℕ
  pub total_published_with_success : ℕ
  pub total_consumed_with_success : ℕ
  pub total_published_with_err : ℕ
  pub total_consumed_with_err : ℕ
  pub total_segmentation_published : Dict String ℕ
  pub total_segmentation_consumed : Dict String ℕ
  pub rpm_publisher : Dict String Rpm
  pub rpm_consumer : Dict String Rpm
  pub p99_consumed : Dict String ℕ
  pub p75_consumed : Dict String ℕ
  pub p99_published : Dict String ℕ
  pub p75_published : Dict String ℕ

-- NewInsights
abbrev pub new_insights : Insights
new_insights = record {
  total_published = 0;
  total_consumed = 0;
  percentage_published_success = (0, 0);
  percentage_consumed_success = (0, 0);
  total_published_with_success = 0;
  total_consumed_with_success = 0;
  total_published_with_err = 0;
  total_consumed_with_err = 0;
  total_segmentation_published = [];
  total_segmentation_consumed = [];
  rpm_publisher = [];
  rpm_consumer = [];
  p99_consumed = [];
  p75_consumed = [];
  p99_published = [];
  p75_published = [];
}

-- m[key]++
unfoldable pub count_key : String → Dict String ℕ → Dict String ℕ
count_key key m = insert key (or_zero 0 (lookup key m) + 1) m

-- data.Values[len(data.Values)-1]++
unfoldable pub increment_last : List ℕ → List ℕ
increment_last [] = []
increment_last (v ∷ []) = suc v ∷ []
increment_last (v ∷ w ∷ vs) = v ∷ increment_last (w ∷ vs)

-- Whether the last element is `t`; a stored series is not empty.
unfoldable pub ends_in : ℕ → List ℕ → Bool
ends_in t [] = false
ends_in t (u ∷ []) = nat_eq u t
ends_in t (u ∷ v ∷ us) = ends_in t (v ∷ us)

-- The entry of a key after one more request in a minute.
unfoldable pub add_to : ℕ → Option Rpm → Rpm
add_to minute none = record { timeseries = minute ∷ []; values = 1 ∷ [] }
add_to minute (some d) =
    if ends_in minute d.timeseries
    then record d { values = increment_last d.values }
    else record { timeseries = d.timeseries ++ minute ∷ []; values = d.values ++ 1 ∷ [] }

-- RpmPublisher.add, and RpmConsumer.add with its key
unfoldable pub add : String → ℕ → Dict String Rpm → Dict String Rpm
add key minute rp = insert key (add_to minute (lookup key rp)) rp

-- The durations of a key: `df = append(df, …)` on a key that is there is not stored back.
unfoldable pub note_duration : String → ℕ → Dict String (List ℕ) → Dict String (List ℕ)
note_duration key d m = elim (lookup key m) [ some df ↦ m | none ↦ insert key (d ∷ []) m ]

-- The two maps of durations beside the insights.
pub record Gathered : Type 0 where
  pub insights : Insights
  pub durations_consumed : Dict String (List ℕ)
  pub durations_published : Dict String (List ℕ)

-- time.Date(…, minute, 0, 0, time.UTC)
abbrev pub minute_of : ℕ → ℕ
minute_of t = t / 60000000000

abbrev pub joined : String → String → String → String
joined a sep b = append a (append sep b)

abbrev pub one_if : Bool → ℕ
one_if b = if b then 1 else 0

-- The branch of a metric with a consumer.
unfoldable pub gather_consumed : Metric → Gathered → Gathered
unfolding count_key add note_duration
gather_consumed metric g =
    let i = g.insights in
    record g {
      insights = record i {
        total_consumed = i.total_consumed + 1;
        total_consumed_with_success = i.total_consumed_with_success + one_if metric.ack;
        total_consumed_with_err = i.total_consumed_with_err + (if metric.ack then 0 else 1);
        total_segmentation_consumed = count_key metric.consumer_name i.total_segmentation_consumed;
        rpm_consumer =
            add (joined metric.topic_name ":" metric.consumer_name) (minute_of metric.time_ended)
              i.rpm_consumer;
      };
      durations_consumed =
          note_duration (joined metric.topic_name "." metric.consumer_name) metric.time_duration_ms
            g.durations_consumed;
    }

-- The other branch.
unfoldable pub gather_published : Metric → Gathered → Gathered
unfolding count_key add note_duration
gather_published metric g =
    let i = g.insights in
    record g {
      insights = record i {
        total_published = i.total_published + 1;
        total_published_with_success = i.total_published_with_success + one_if metric.ack;
        total_published_with_err = i.total_published_with_err + (if metric.ack then 0 else 1);
        total_segmentation_published = count_key metric.topic_name i.total_segmentation_published;
        rpm_publisher = add metric.topic_name (minute_of metric.time_ended) i.rpm_publisher;
      };
      durations_published =
          note_duration metric.topic_name metric.time_duration_ms g.durations_published;
    }

-- for _, metric := range *m
unfoldable pub gather : List Metric → Gathered → Gathered
gather [] g = g
gather (metric ∷ metrics) g =
    gather metrics
      (if metric.consumer_name == "" then gather_published metric g else gather_consumed metric g)

-- sort.Float64s
unfoldable pub place : ℕ → List ℕ → List ℕ
place x [] = x ∷ []
place x (y ∷ ys) = if leb x y then x ∷ y ∷ ys else y ∷ place x ys

unfoldable pub sort : List ℕ → List ℕ
sort [] = []
sort (x ∷ xs) = place x (sort xs)

-- int(math.Ceil(p*n) - 1), kept within the list; `p` is a float64.
unfoldable pub percentile_index : ℕ → ℕ → ℕ
percentile_index p n = let idx = ceil (times p n) - 1 in if leb n idx then n - 1 else idx

-- percentile; `none` for its errors.
unfoldable pub percentile : List ℕ → ℕ → Option ℕ
percentile [] p = none
percentile (x ∷ xs) p =
    if ltb one p then none else get_elem? (sort (x ∷ xs)) (percentile_index p (length (x ∷ xs)))

-- The loop over a map of durations, for one percentile: the error is not read, and its value is 0.
abbrev pub percentiles : ℕ → Dict String (List ℕ) → Dict String ℕ
percentiles p m = map (λ e. (e.0, or_zero 0 (percentile e.1 p))) m

abbrev pub no_durations : Gathered
no_durations = record { insights = new_insights; durations_consumed = []; durations_published = [] }

-- Metrics.Insights
unfoldable pub insights : List Metric → Insights
insights metrics =
    let g = gather metrics no_durations in
    let i = g.insights in
    record i {
      p99_consumed = percentiles constant_99 g.durations_consumed;
      p75_consumed = percentiles constant_75 g.durations_consumed;
      p99_published = percentiles constant_99 g.durations_published;
      p75_published = percentiles constant_75 g.durations_published;
      percentage_consumed_success = (i.total_consumed_with_success, i.total_consumed);
      percentage_published_success = (i.total_published_with_success, i.total_published);
    }
