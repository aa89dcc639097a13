-- ===== src/Telemetry/Tests.antt =====
-- An exporter that cannot be registered, and a second call with metrics disabled; three tasks.
use gqueue.Common.{
  String, Option, true, false, none, some, List, [], ◌∷◌, error, pos, ◌≡◌, refl, length, ◌+◌,
}
use gqueue.Telemetry.{Handler, init, new, run, handler}
use gqueue.Telemetry.Balance.{
  task_consumer_total_processing, task_consumer_total_failure, task_consumer_total_success,
  level_after, recorded_tasks,
}
use gqueue.Telemetry.Context.{under_meter_key}
use gqueue.Telemetry.Instruments.{Refusals}
use gqueue.Telemetry.Outcomes.{outcomes, tasks_counted}

second_call :
    (new false none (new true (some "duplicate collector") init).0).1 ≡ error "duplicate collector"
unfolding new
second_call = refl

placeholder : handler (run ((true, some "duplicate collector") ∷ []) init) ≡ Handler.placeholder
unfolding handler run
placeholder = refl

abbrev accepts : Refusals
accepts a kind m = none

abbrev tasks : List (String × Option String)
tasks = ("billing", none) ∷ ("billing", some "status 500") ∷ ("shipping", none) ∷ []

tasks_counted_example :
    let recorded =
      recorded_tasks accepts (under_meter_key (some "task-consumer") ∷ []) init tasks in
    let (failed, succeeded) = outcomes tasks in
    (level_after task_consumer_total_processing.name (pos 4) recorded ≡ pos 4)
    × (level_after task_consumer_total_failure.name (pos 0) recorded ≡ pos failed)
    × (level_after task_consumer_total_success.name (pos 0) recorded ≡ pos succeeded)
    × (failed + succeeded ≡ length tasks)
tasks_counted_example =
    tasks_counted accepts (under_meter_key (some "task-consumer") ∷ []) init (λ a kind m. refl)
      tasks (pos 4)
