-- ===== src/Process/Tests.antt =====
-- A process with all parts, and one with a scope that names none.
use gqueue.Common.{none, some, [], ◌∷◌, ◌≡◌, refl}
use gqueue.Process.{awaited, shutdown_telemetry, cancel, returned, ProcessEnv, main}
use gqueue.Process.Phases.{MainPhased, main-MainPhased}

abbrev env : ProcessEnv
env = record { telemetry = none; redis = none; database = none; pubsub_client = none }

main-MainPhased_example : MainPhased "all" (main "all" env)
main-MainPhased_example = main-MainPhased "all" env

-- A scope that is misspelt starts nothing and waits for the signal.
unknown_scope : main "tasks" env ≡ (awaited ∷ shutdown_telemetry ∷ cancel ∷ [], returned)
unfolding main
unknown_scope = refl

no_client : main "task" (record env { pubsub_client = some "no credentials" }) ≡ main "task" env
unfolding main
no_client = refl
