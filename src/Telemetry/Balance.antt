-- ===== src/Telemetry/Balance.antt =====
-- cmd/setup/middleware/middleware.go, AsynqMetrics: its three metrics of pkg/telemetry/metrics.go, and
-- what they sum to.
use gqueue.Common.{
  String, ◌==◌, string_Eq, Option, none, some, List, [], ◌∷◌, ◌++◌, map, if◌then◌else◌, ℤ, pos,
  negsuc, plus, decrement-increment, false, ◌≡◌, refl, ap, ◌∙◌,
}
use gqueue.Middleware.{TaskCount, asynq_metrics}
use gqueue.Telemetry.{Package, meter}
use gqueue.Telemetry.Context.{Entries, Answer, meter_from_context}
use gqueue.Telemetry.Instruments.{
  Metric, Attributes, Measurement, Kind, after_instrument, hand_to, Recorded, Refusals, count,
  increment, decrement,
}

abbrev pub task_consumer_total_processing : Metric
task_consumer_total_processing = record {
  name = "task_consumer_total_processing";
  description = "Total of tasks being consumed";
}

abbrev pub task_consumer_total_failure : Metric
task_consumer_total_failure = record {
  name = "task_consumer_total_failure";
  description = "Total of tasks being consumed with failure";
}

abbrev pub task_consumer_total_success : Metric
task_consumer_total_success = record {
  name = "task_consumer_total_success";
  description = "Total of tasks being consumed with success";
}

-- attrs
abbrev pub event_name_of : String → Attributes
event_name_of task_type = ("task.event_name", task_type) ∷ []

-- What a metric has, after the measurements, where it starts at `level`.
abbrev pub after_one : String → ℤ → Recorded ℤ → ℤ
after_one name level (Recorded.measured meter m) =
    if m.metric.name == name then plus level m.amount else level
after_one name level Recorded.refused = level
after_one name level Recorded.panicked = level

unfoldable pub level_after : String → ℤ → List (Recorded ℤ) → ℤ
level_after name level [] = level
level_after name level (r ∷ rs) = level_after name (after_one name level r) rs

-- What Increment and Decrement hand to the instrument
abbrev pub processing_by : ℤ → Attributes → Measurement ℤ
processing_by amount attrs = record {
  kind = Kind.up_down_counter;
  metric = task_consumer_total_processing;
  amount = amount;
  attributes = attrs;
}

-- What Count hands to the instrument for one task
abbrev pub outcome_by : Metric → String → Measurement ℤ
outcome_by m task_type = record {
  kind = Kind.counter;
  metric = m;
  amount = pos 1;
  attributes = event_name_of task_type;
}

abbrev processing : ℤ → Recorded ℤ → ℤ
processing = after_one task_consumer_total_processing.name

module _ (refuse : Refusals) (ctx : Entries) (pkg : Package) where
  abbrev pub recorded_count : Attributes → TaskCount → Recorded ℤ
  recorded_count attrs TaskCount.increment_processing =
      increment refuse (some ctx) pkg task_consumer_total_processing attrs
  recorded_count attrs TaskCount.decrement_processing =
      decrement refuse (some ctx) pkg task_consumer_total_processing attrs
  recorded_count attrs TaskCount.count_failure =
      count refuse (some ctx) pkg task_consumer_total_failure (pos 1) attrs
  recorded_count attrs TaskCount.count_success =
      count refuse (some ctx) pkg task_consumer_total_success (pos 1) attrs

  -- The measurements of tasks one after the other, each given by its type and its handler's result
  unfoldable pub recorded_tasks : List (String × Option String) → List (Recorded ℤ)
  unfolding asynq_metrics
  recorded_tasks [] = []
  recorded_tasks ((task_type, outcome) ∷ tasks) =
      map (recorded_count (event_name_of task_type)) (asynq_metrics outcome).0
      ++ recorded_tasks tasks

  other_metric :
      (name : String) (a : Answer) (m : Measurement ℤ) (level : ℤ) (answer : Option String)
      → (m.metric.name == name) ≡ false
      → after_one name level (after_instrument refuse a m answer) ≡ level
  other_metric name a m level (some err) h = refl
  other_metric name a m level none h = rw h refl

  answered-balanced :
      (a : Answer) (attrs : Attributes) (m : Measurement ℤ) (level : ℤ)
      (answer other : Option String)
      → (m.metric.name == task_consumer_total_processing.name) ≡ false
      → processing
          (processing
            (processing level (after_instrument refuse a (processing_by (pos 1) attrs) answer))
            (after_instrument refuse a m other))
          (after_instrument refuse a (processing_by (negsuc 0) attrs) answer)
        ≡ level
  answered-balanced a attrs m level (some err) other h = other_metric _ a m level other h
  answered-balanced a attrs m level none other h =
      ap (λ l. plus l (negsuc 0)) (other_metric _ a m (plus level (pos 1)) other h)
      ∙ decrement-increment level

  task-balanced :
      (a : Answer) (attrs : Attributes) (m : Measurement ℤ) (level : ℤ)
      → (m.metric.name == task_consumer_total_processing.name) ≡ false
      → processing
          (processing
            (processing level (hand_to refuse (processing_by (pos 1) attrs) a))
            (hand_to refuse m a))
          (hand_to refuse (processing_by (negsuc 0) attrs) a)
        ≡ level
  task-balanced Answer.panics attrs m level h = refl
  task-balanced (Answer.carried meter) attrs m level h =
      answered-balanced (Answer.carried meter) attrs m level
        (refuse (Answer.carried meter) Kind.up_down_counter task_consumer_total_processing)
        (refuse (Answer.carried meter) m.kind m.metric) h
  task-balanced (Answer.by_default source) attrs m level h =
      answered-balanced (Answer.by_default source) attrs m level
        (refuse (Answer.by_default source) Kind.up_down_counter task_consumer_total_processing)
        (refuse (Answer.by_default source) m.kind m.metric) h

  -- After any number of tasks, whatever their outcomes and whatever the meter refuses, the number of
  -- tasks in progress is as before.
  pub processing-balanced :
      (tasks : List (String × Option String)) (level : ℤ)
      → level_after task_consumer_total_processing.name level (recorded_tasks tasks) ≡ level
  unfolding level_after recorded_tasks asynq_metrics
  processing-balanced [] level = refl
  processing-balanced ((task_type, some err) ∷ tasks) level =
      ap (λ l. level_after task_consumer_total_processing.name l (recorded_tasks tasks))
        (task-balanced (meter_from_context (some ctx) pkg) (event_name_of task_type)
          (outcome_by task_consumer_total_failure task_type) level refl)
      ∙ processing-balanced tasks level
  processing-balanced ((task_type, none) ∷ tasks) level =
      ap (λ l. level_after task_consumer_total_processing.name l (recorded_tasks tasks))
        (task-balanced (meter_from_context (some ctx) pkg) (event_name_of task_type)
          (outcome_by task_consumer_total_success task_type) level refl)
      ∙ processing-balanced tasks level
