-- ===== src/Telemetry/Outcomes.antt =====
-- What the counters of AsynqMetrics (cmd/setup/middleware/middleware.go) say of the tasks that ran.
use gqueue.Common.{
  ℕ, suc, ◌+◌, String, ◌==◌, string_Eq, Option, none, some, List, [], ◌∷◌, if◌then◌else◌, ℤ, pos,
  negsuc, plus, length, arith, ◌≡◌, refl, ap, ◌∙◌,
}
use gqueue.Middleware.{asynq_metrics}
use gqueue.Telemetry.{Package, meter}
use gqueue.Telemetry.Context.{
  Entries, Meter, Answer, meter_value, meter_or_default, meter_from_context,
}
use gqueue.Telemetry.Instruments.{Metric, Measurement, Kind, hand_to, Refusals}
use gqueue.Telemetry.Balance.{
  task_consumer_total_processing, task_consumer_total_failure, task_consumer_total_success,
  after_one, level_after, recorded_tasks, event_name_of, processing_by, outcome_by,
  processing-balanced,
}

-- The tasks that failed, and those that did not
abbrev pub outcomes : List (String × Option String) → ℕ × ℕ
outcomes [] = (0, 0)
outcomes ((task_type, some err) ∷ tasks) = (suc (outcomes tasks).0, (outcomes tasks).1)
outcomes ((task_type, none) ∷ tasks) = ((outcomes tasks).0, suc (outcomes tasks).1)

outcomes-length :
    (tasks : List (String × Option String)) → (outcomes tasks).0 + (outcomes tasks).1 ≡ length tasks
outcomes-length [] = refl
outcomes-length ((task_type, some err) ∷ tasks) = ground (arith, outcomes-length tasks)
outcomes-length ((task_type, none) ∷ tasks) = ground (arith, outcomes-length tasks)

-- What a metric has after a measurement that its meter takes
abbrev pub added : String → Measurement ℤ → ℤ → ℤ
added name m level = if m.metric.name == name then plus level m.amount else level

module _ (refuse : Refusals) (ctx : Entries) (pkg : Package)
    (accepts : (a : Answer) (kind : Kind) (m : Metric) → refuse a kind m ≡ none) where
  abbrev taken : String → Meter → Measurement ℤ → ℤ → ℤ
  taken name value m level = after_one name level (hand_to refuse m (meter_or_default pkg value))

  hand_to-accepted :
      (name : String) (level : ℤ) (m : Measurement ℤ) (value : Meter)
      → taken name value m level ≡ added name m level
  hand_to-accepted name level m (some given) =
      rw (accepts (Answer.carried given) m.kind m.metric) refl
  hand_to-accepted name level m none =
      rw (accepts (Answer.by_default (meter pkg)) m.kind m.metric) refl

  three-accepted :
      (name : String) (level : ℤ) (first second third : Measurement ℤ) (value : Meter)
      → taken name value third (taken name value second (taken name value first level))
        ≡ added name third (added name second (added name first level))
  three-accepted name level first second third value =
      hand_to-accepted name (taken name value second (taken name value first level)) third value
      ∙ ap (added name third) (
          hand_to-accepted name (taken name value first level) second value
          ∙ ap (added name second) (hand_to-accepted name level first value))

  task-counted :
      (name : String) (level : ℤ) (counted : Metric) (task_type : String)
      → let attrs = event_name_of task_type in
        let value = meter_value ctx in
        taken name value (processing_by (negsuc 0) attrs) (
          taken name value
            (outcome_by counted task_type)
            (taken name value (processing_by (pos 1) attrs) level))
        ≡ added name (processing_by (negsuc 0) attrs) (
            added name
              (outcome_by counted task_type)
              (added name (processing_by (pos 1) attrs) level))
  task-counted name level counted task_type =
      three-accepted name level (processing_by (pos 1) (event_name_of task_type))
        (outcome_by counted task_type) (processing_by (negsuc 0) (event_name_of task_type))
        (meter_value ctx)

  outcomes-counted :
      (tasks : List (String × Option String)) (failures successes : ℕ)
      → let recorded = recorded_tasks refuse ctx pkg tasks in
        (level_after task_consumer_total_failure.name (pos failures) recorded
          ≡ pos (failures + (outcomes tasks).0))
        × (level_after task_consumer_total_success.name (pos successes) recorded
            ≡ pos (successes + (outcomes tasks).1))
  unfolding level_after recorded_tasks asynq_metrics meter_from_context
  outcomes-counted [] f s = (ap pos (omega arith), ap pos (omega arith))
  outcomes-counted ((task_type, some err) ∷ tasks) f s = (
    ap (λ l. level_after task_consumer_total_failure.name l (recorded_tasks refuse ctx pkg tasks))
          (task-counted task_consumer_total_failure.name (pos f) task_consumer_total_failure
            task_type)
        ∙ (outcomes-counted tasks (f + 1) s).0
        ∙ ap pos (omega arith),
    ap (λ l. level_after task_consumer_total_success.name l (recorded_tasks refuse ctx pkg tasks))
          (task-counted task_consumer_total_success.name (pos s) task_consumer_total_failure
            task_type)
        ∙ (outcomes-counted tasks f s).1,
  )
  outcomes-counted ((task_type, none) ∷ tasks) f s = (
    ap (λ l. level_after task_consumer_total_failure.name l (recorded_tasks refuse ctx pkg tasks))
          (task-counted task_consumer_total_failure.name (pos f) task_consumer_total_success
            task_type)
        ∙ (outcomes-counted tasks f s).0,
    ap (λ l. level_after task_consumer_total_success.name l (recorded_tasks refuse ctx pkg tasks))
          (task-counted task_consumer_total_success.name (pos s) task_consumer_total_success
            task_type)
        ∙ (outcomes-counted tasks f (s + 1)).1
        ∙ ap pos (omega arith),
  )

  -- Where the meter refuses no instrument, after any tasks one after the other, whatever their
  -- outcomes, the metric of the tasks in progress is at the level that it had, the metrics of failures
  -- and of successes that start at 0 are at the numbers of the tasks that failed and of those that did
  -- not, and these are all the tasks.
  pub tasks_counted :
      (tasks : List (String × Option String)) (level : ℤ)
      → let recorded = recorded_tasks refuse ctx pkg tasks in
        let (failed, succeeded) = outcomes tasks in
        (level_after task_consumer_total_processing.name level recorded ≡ level)
        × (level_after task_consumer_total_failure.name (pos 0) recorded ≡ pos failed)
        × (level_after task_consumer_total_success.name (pos 0) recorded ≡ pos succeeded)
        × (failed + succeeded ≡ length tasks)
  tasks_counted tasks level = (
    processing-balanced refuse ctx pkg tasks level,
    (outcomes-counted tasks 0 0).0 ∙ ap pos (omega arith),
    (outcomes-counted tasks 0 0).1 ∙ ap pos (omega arith),
    outcomes-length tasks,
  )
