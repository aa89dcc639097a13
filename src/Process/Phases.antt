-- ===== src/Process/Phases.antt =====
-- What runs while a process shuts down.
use gqueue.Common.{
  String, Bool, true, false, not, ◌&&◌, ◌||◌, ◌==◌, string_Eq, Option, none, some, List, [], ◌∷◌,
  ◌++◌, keep, ◌≡◌, refl,
}
use gqueue.Process.{
  Part, new_mem_store, spawn_consumer, start_server, Action, start, awaited, shutdown_server, close,
  cancel, Ending, returned, ProcessEnv, wait_for_shutdown, finish, when, pubsub_start, task_start,
  main, runs, unless_error, after_client,
}

abbrev pub same_part : Part → Part → Bool
same_part Part.backoffice Part.backoffice = true
same_part Part.pubsub Part.pubsub = true
same_part Part.task Part.task = true
same_part p q = false

abbrev pub is_among : Part → List Part → Bool
is_among p [] = false
is_among p (q ∷ qs) = same_part p q || is_among p qs

abbrev pub is_empty : List Part → Bool
is_empty [] = true
is_empty (p ∷ ps) = false

-- Which consumers run that were not told to end, and which servers serve, over a sequence of actions
pub record Running : Type 0 where
  pub consumers : List Part
  pub servers : List Part

abbrev pub forget : Part → List Part → List Part
forget p ps = keep (λ q. not (same_part p q)) ps

-- Whether a consumer runs as it should when the client of its part is closed: the subscribers have
-- not been told to end, and the worker of tasks has.
abbrev pub as_closed : Part → List Part → Bool
as_closed Part.task consumers = not (is_among Part.task consumers)
as_closed p consumers = is_among p consumers

-- Every client is closed where no server serves any more; at the end no server serves and every
-- consumer has been told to end. What tells it is the end of the context, and for the worker of tasks
-- the signal too, which asynq's Server.Run awaits on its own.
unfoldable pub closes_running : Running → List Action → Bool
closes_running r [] = is_empty r.servers && is_empty r.consumers
closes_running r (start p spawn_consumer ∷ rest) =
    closes_running (record r { consumers = p ∷ r.consumers }) rest
closes_running r (start p start_server ∷ rest) =
    closes_running (record r { servers = p ∷ r.servers }) rest
closes_running r (awaited ∷ rest) =
    closes_running (record r { consumers = forget Part.task r.consumers }) rest
closes_running r (shutdown_server p ∷ rest) =
    closes_running (record r { servers = forget p r.servers }) rest
closes_running r (close p ∷ rest) =
    is_empty r.servers && as_closed p r.consumers && closes_running r rest
closes_running r (cancel ∷ rest) = closes_running (record r { consumers = [] }) rest
closes_running r (other ∷ rest) = closes_running r rest

abbrev pub at_first : Running
at_first = record { consumers = []; servers = [] }

-- The server of a part is started.
unfoldable pub serves : Part → List Action → Bool
serves p [] = false
serves p (start q start_server ∷ rest) = same_part p q || serves p rest
serves p (other ∷ rest) = serves p rest

-- What main does behind the checks, by the parts that run and whether the memory store is made
abbrev trace_of : Bool → Bool → Bool → Bool → List Action
trace_of b m p t =
    (when b (start Part.backoffice start_server ∷ []) ++ when m (new_mem_store ∷ []))
    ++ (when p pubsub_start
        ++ (when t task_start
            ++ finish
                (when b (Part.backoffice ∷ [])
                  ++ (when p (Part.pubsub ∷ []) ++ when t (Part.task ∷ [])))
                (when p (Part.pubsub ∷ []) ++ when t (Part.task ∷ []))))

abbrev Phased : Bool → Bool → Bool → List Action → Type 0
Phased b p t trace =
    (closes_running at_first trace ≡ true)
    × (serves Part.backoffice trace ≡ b)
    × (serves Part.pubsub trace ≡ p)
    × (serves Part.task trace ≡ t)

trace_of-Phased : (b m p t : Bool) → Phased b p t (trace_of b m p t)
unfolding closes_running serves keep wait_for_shutdown
trace_of-Phased true true true true = (refl, refl, refl, refl)
trace_of-Phased true true true false = (refl, refl, refl, refl)
trace_of-Phased true true false true = (refl, refl, refl, refl)
trace_of-Phased true true false false = (refl, refl, refl, refl)
trace_of-Phased true false true true = (refl, refl, refl, refl)
trace_of-Phased true false true false = (refl, refl, refl, refl)
trace_of-Phased true false false true = (refl, refl, refl, refl)
trace_of-Phased true false false false = (refl, refl, refl, refl)
trace_of-Phased false true true true = (refl, refl, refl, refl)
trace_of-Phased false true true false = (refl, refl, refl, refl)
trace_of-Phased false true false true = (refl, refl, refl, refl)
trace_of-Phased false true false false = (refl, refl, refl, refl)
trace_of-Phased false false true true = (refl, refl, refl, refl)
trace_of-Phased false false true false = (refl, refl, refl, refl)
trace_of-Phased false false false true = (refl, refl, refl, refl)
trace_of-Phased false false false false = (refl, refl, refl, refl)

module _ (scope : String) where
  -- The parts whose server is started are those of the scope, and they are shut down in phases.
  abbrev pub MainPhased : List Action × Ending → Type 0
  MainPhased (trace, returned) =
      (closes_running at_first trace ≡ true) × ((p : Part) → serves p trace ≡ runs scope p)
  MainPhased (trace, ending) = Unit

  abbrev trace : List Action
  trace =
      trace_of (runs scope Part.backoffice) (scope == "pubsub" || scope == "task" || scope == "all")
        (runs scope Part.pubsub) (runs scope Part.task)

  trace-Phased :
      Phased (runs scope Part.backoffice) (runs scope Part.pubsub) (runs scope Part.task) trace
  trace-Phased =
      trace_of-Phased (runs scope Part.backoffice)
        (scope == "pubsub" || scope == "task" || scope == "all") (runs scope Part.pubsub)
        (runs scope Part.task)

  trace-serves : (p : Part) → serves p trace ≡ runs scope p
  trace-serves Part.backoffice = trace-Phased.1
  trace-serves Part.pubsub = trace-Phased.2
  trace-serves Part.task = trace-Phased.3

  after_client-MainPhased : (b : Bool) (e : Option String) → MainPhased (after_client scope b e)
  after_client-MainPhased true (some err) = tt
  after_client-MainPhased true none = (trace-Phased.0, trace-serves)
  after_client-MainPhased false e = (trace-Phased.0, trace-serves)

  unless_error-MainPhased :
      (e : Option String) (r : List Action × Ending)
      → MainPhased r
      → MainPhased (unless_error scope e r)
  unless_error-MainPhased none r h = h
  unless_error-MainPhased (some err) r h = tt

  -- For any scope and any errors of the parts, where the process returns from main, the servers that
  -- were started are those of the parts in the scope, and each of them is shut down before any
  -- client is closed. The Pub/Sub client is closed before its subscribers are told to end, since the
  -- context is cancelled last; the client of the tasks is closed after their worker was told to, by
  -- the signal. At the end every consumer has been told to end.
  pub main-MainPhased : (env : ProcessEnv) → MainPhased (main scope env)
  unfolding main
  main-MainPhased env = unless_error-MainPhased env.telemetry _ (
      unless_error-MainPhased env.redis _ (
        unless_error-MainPhased env.database _
          (after_client-MainPhased (runs scope Part.pubsub) env.pubsub_client)))
