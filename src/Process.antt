-- ===== src/Process.antt =====
-- cmd/api/main.go, with the Start of cmd/setup/pubsub/base.go and cmd/setup/task/base.go: a run of the
-- process as the sequence of what it does. Errors of a shutdown are only logged.
pub mod Phases
mod Tests
use gqueue.Common.{
  String, Bool, true, false, ◌||◌, ◌==◌, string_Eq, Option, none, some, List, [], ◌∷◌, ◌++◌, map,
  if◌then◌else◌,
}

pub data Part : Type 0 where
  backoffice pubsub task : Part

abbrev pub part_name : Part → String
part_name Part.backoffice = "backoffice"
part_name Part.pubsub = "pubsub"
part_name Part.task = "task"

-- What a Start does, in its order; the consumer and the refresh of the memory store go on in
-- goroutines. The refresh and the subscribers end with the context; the worker of the tasks ends with
-- it or with a signal, which asynq's Server.Run awaits on its own.
pub data Step : Type 0 where
  new_client new_worker spawn_consumer new_publisher load_mem_store spawn_sync start_server : Step

pub data Action : Type 0 where
  new_mem_store : Action
  start : Part → Step → Action
  -- a signal: the context, whose end is waited for too, ends only with `cancel`
  awaited : Action
  shutdown_server : Part → Action
  close : Part → Action
  shutdown_telemetry : Action
  cancel : Action

-- How main ends
pub data Ending : Type 0 where
  panicked exited : String → Ending
  returned : Ending

-- The errors of telemetry.New, of the ping of Redis, of the database and of the Pub/Sub client,
-- `none` for nil
pub record ProcessEnv : Type 0 where
  pub telemetry : Option String
  pub redis : Option String
  pub database : Option String
  pub pubsub_client : Option String

-- scopeOrAll
unfoldable pub scope_or_all : String → String → Bool
scope_or_all scope expected = scope == "all" || scope == expected

abbrev pub when {ℓ} : {A : Type ℓ} → Bool → List A → List A
when b xs = if b then xs else []

-- Service.Start of cmd/setup/pubsub/base.go, behind its client
abbrev pub pubsub_start : List Action
pubsub_start =
    map (start Part.pubsub) (
      new_client ∷ new_publisher ∷ spawn_consumer ∷ load_mem_store ∷ spawn_sync ∷ start_server ∷ [])

-- Service.Start of cmd/setup/task/base.go
abbrev pub task_start : List Action
task_start = map (start Part.task) (
    new_client ∷ new_worker ∷ spawn_consumer ∷ new_publisher ∷ load_mem_store ∷ spawn_sync
    ∷ start_server ∷ [])

-- waitForShutdown
unfoldable pub wait_for_shutdown : List Part → List Action
wait_for_shutdown servers = awaited ∷ map shutdown_server servers

-- What follows the starts: the servers, the closers, telemetry, and the deferred cancel.
abbrev pub finish : List Part → List Part → List Action
finish servers closers =
    wait_for_shutdown servers ++ (map close closers ++ shutdown_telemetry ∷ cancel ∷ [])

module _ (scope : String) where
  abbrev pub runs : Part → Bool
  runs p = scope_or_all scope (part_name p)

  abbrev pub started_first : List Action
  started_first =
      when (runs Part.backoffice) (start Part.backoffice start_server ∷ [])
      ++ when (scope == "pubsub" || scope == "task" || scope == "all") (new_mem_store ∷ [])

  abbrev pub servers : List Part
  servers =
      when (runs Part.backoffice) (Part.backoffice ∷ [])
      ++ (when (runs Part.pubsub) (Part.pubsub ∷ []) ++ when (runs Part.task) (Part.task ∷ []))

  abbrev pub closers : List Part
  closers = when (runs Part.pubsub) (Part.pubsub ∷ []) ++ when (runs Part.task) (Part.task ∷ [])

  -- From the start of the Pub/Sub part, whose Start ends the process where there is no client.
  abbrev pub after_client : Bool → Option String → List Action × Ending
  after_client true (some err) = (started_first, exited err)
  after_client b e = (
    started_first
        ++ (when (runs Part.pubsub) pubsub_start
            ++ (when (runs Part.task) task_start ++ finish servers closers)),
    returned,
  )

  -- A panic runs the deferred cancel.
  abbrev pub unless_error : Option String → List Action × Ending → List Action × Ending
  unless_error (some err) rest = (cancel ∷ [], panicked err)
  unless_error none rest = rest

  -- main
  unfoldable pub main : ProcessEnv → List Action × Ending
  unfolding scope_or_all wait_for_shutdown
  main env = unless_error env.telemetry (
      unless_error env.redis
        (unless_error env.database (after_client (runs Part.pubsub) env.pubsub_client)))
