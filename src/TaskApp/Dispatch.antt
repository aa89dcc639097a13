-- ===== src/TaskApp/Dispatch.antt =====
-- The worker of tasks (cmd/setup/task/consumer.go, pkg/asyncadapter/asynq_adapter.go and base.go): from
-- the task that was enqueued to the webhook call. The choice of a handler by asynq's mux, the JSON
-- codec and the webhook are parameters.
use gqueue.Common.{
  arith, subst, ℕ, String, Option, none, some, List, [], ◌∷◌, ◌≡◌, ◌≢◌, ◌↔◌, refl, sym, ap, ◌∙◌,
}
use gqueue.Event.{Consumer, Event, defined_opts}
use gqueue.Fetch.{long_running}
use gqueue.Publisher.{Publication, InternalPayload, RequestPayload, merge_headers}
use gqueue.Webhook.{
  Notification, ConsumerEnv, Consumed, HandleError, notification, request_handle, after_payload,
  after_validate, after_notify,
}
use gqueue.Middleware.{TaskCount, LogLine, asynq_metrics, asynq_logger}
use gqueue.TaskApp.{
  request_topic, publication, get_request_handle, validate_request, Enqueued, Enqueuing, enqueued,
  publish_task, after_enqueue, after_marshal,
}
use gqueue.TaskApp.Consuming.{validate_request_iff, task_notification}

-- What the handler is given beside the task
pub record WorkerEnv (D : Type 0) : Type 0 where
  -- json.Unmarshal, `none` for its error
  pub decode : String → Option (RequestPayload D)
  pub notify : Notification D → Option String
  pub started : ℕ
  pub finished : ℕ
  -- The text of an error
  pub error_text : HandleError → String

-- What a worker does with one task: the handler's work, the counts, the lines of the logger, and the
-- error for asynq.
pub record Processed (D : Type 0) : Type 0 where
  pub consumed : Option (Consumed D)
  pub counts : List TaskCount
  pub logs : List LogLine
  pub result : Option String

module _ {D : Type 0} (env : WorkerEnv D) where
  -- AsyncCtx.Payload on the bytes of the task, and the rest of the handler's environment
  abbrev pub handler_env : Enqueued → ConsumerEnv D
  handler_env task = record {
    payload = env.decode task.payload;
    notify = env.notify;
    started = env.started;
    finished = env.finished;
  }

  -- fmt.Errorf("handle task: …")
  abbrev pub handle_task : Option HandleError → Option String
  handle_task none = none
  handle_task (some err) = some (env.error_text err)

  -- The task behind its handler: AsynqMetrics, within AsynqLogger.
  abbrev pub processed : Consumed D → Processed D
  processed consumed =
      let counted = asynq_metrics (handle_task consumed.error) in
      let logged = asynq_logger counted.1 in
      record { consumed = some consumed; counts = counted.0; logs = logged.0; result = logged.1 }

  -- ToAsynqHandler around GetRequestHandle, within the middleware
  unfoldable pub to_asynq_handler : Enqueued → Processed D
  unfolding get_request_handle asynq_metrics asynq_logger
  to_asynq_handler task = processed (get_request_handle (handler_env task))

  -- A task without a handler
  abbrev pub unhandled : Processed D
  unhandled = record {
    consumed = none;
    counts = [];
    logs = [];
    result = some "handler not found for task";
  }

  abbrev pub chosen : Enqueued → Option String → Processed D
  chosen task none = unhandled
  chosen task (some pattern) = to_asynq_handler task

  -- Service.consumer: one handler is registered, for the topic of requests. `choose` is asynq's mux:
  -- of the patterns the one whose handler is called for a type of task.
  unfoldable pub consumer : (List String → String → Option String) → Enqueued → Processed D
  consumer choose task = chosen task (choose (request_topic ∷ []) task.task_type)

  -- Of two patterns or more nothing is asked here: a pattern alone that is the type is chosen.
  abbrev pub ChoosesSame : (List String → String → Option String) → Type 0
  ChoosesSame choose = (pattern : String) → choose (pattern ∷ []) pattern ≡ some pattern

  -- The call of the webhook for a consumer of a published event
  abbrev pub webhook_call : InternalPayload D → Consumer → Notification D
  webhook_call payload target = record {
    content = payload.content;
    headers = merge_headers payload.metadata.headers target.headers;
    consumer = target;
    opt = long_running;
  }

  -- One call was made, and the task succeeds exactly where the call does.
  abbrev pub Called : Notification D → Processed D → Type 0
  Called call done =
      (r : Consumed D) × (done.consumed ≡ some r)
      × (r.notified ≡ call ∷ [])
      × ((done.result ≡ none) ↔ (env.notify call ≡ none))

  notify_Called :
      (task : Enqueued) (q : RequestPayload D) (answer : Option String)
      → env.notify (task_notification (handler_env task) q) ≡ answer
      → Called (task_notification (handler_env task) q) (
          processed
            (after_notify (handler_env task) validate_request long_running (λ _. []) q answer))
  unfolding after_notify asynq_metrics asynq_logger
  notify_Called task q none h = (_, refl, refl, ((λ _. h), (λ _. refl)))
  notify_Called task q (some err) h =
      (_, refl, refl, ((λ e. absurd (ground (arith, e))), (λ e. absurd (ground (arith, e, h)))))

  to_asynq_handler-Called :
      (task : Enqueued) (q : RequestPayload D)
      → env.decode task.payload ≡ some q
      → validate_request q ≡ none
      → Called (task_notification (handler_env task) q) (to_asynq_handler task)
  unfolding to_asynq_handler get_request_handle request_handle after_payload after_validate
  to_asynq_handler-Called task q h v =
      let call = task_notification (handler_env task) q in
      let same =
        ap
          (λ o.
            processed (after_payload (handler_env task) validate_request long_running (λ _. []) o))
          h
        ∙ ap
            (λ o.
              processed
                (after_validate (handler_env task) validate_request long_running (λ _. []) q o))
            v in
      subst (Called call) (sym same) (notify_Called task q (env.notify call) refl)

  consumer-Called :
      (choose : List String → String → Option String) (task : Enqueued) (call : Notification D)
      → ChoosesSame choose
      → task.task_type ≡ request_topic
      → Called call (to_asynq_handler task)
      → Called call (consumer choose task)
  unfolding consumer
  consumer-Called choose task call same topic h =
      subst (Called call)
        (sym (
          ap (λ t. chosen task (choose (request_topic ∷ []) t)) topic
          ∙ ap (chosen task) (same request_topic)))
        h

-- A task that was enqueued has the type of the publication's topic and the marshalled request.
module _ {D : Type 0} (marshal : RequestPayload D → Option String)
    (enqueue : Enqueued → Option String) where
  abbrev task_of : Enqueuing → Option Enqueued
  task_of (enqueued t) = some t
  task_of e = none

  abbrev Carries : Publication D → Option Enqueued → Type 0
  Carries p none = Unit
  Carries p (some t) = (t.task_type ≡ p.topic) × (marshal p.input ≡ some t.payload)

  after_enqueue-Carries :
      (p : Publication D) (t : Enqueued) (r : Option String)
      → Carries p (some t)
      → Carries p (task_of (after_enqueue marshal enqueue t r))
  after_enqueue-Carries p t none h = h
  after_enqueue-Carries p t (some err) h = tt

  after_marshal-Carries :
      (p : Publication D) (m : Option String)
      → marshal p.input ≡ m
      → Carries p (task_of (after_marshal marshal enqueue p m))
  after_marshal-Carries p none h = tt
  after_marshal-Carries p (some body) h =
      let task : Enqueued = record {
        task_type = p.topic;
        payload = body;
        options = defined_opts p.asynq_opts;
      } in
      after_enqueue-Carries p task (enqueue task) (refl, h)

  publish_task-Carries :
      (p : Publication D) (t : Enqueued)
      → publish_task marshal enqueue p ≡ enqueued t
      → (t.task_type ≡ p.topic) × (marshal p.input ≡ some t.payload)
  unfolding publish_task
  publish_task-Carries p t h =
      subst (λ e. Carries p (task_of e)) h (after_marshal-Carries p (marshal p.input) refl)

  -- A task that was enqueued for a consumer of an event, both of which have their name and their
  -- address, is handed to the handler of requests by the worker, and calls the webhook once, at that
  -- consumer, with the client's content and with the headers of the client's metadata under those
  -- of the consumer; the task succeeds exactly where the call does. The codec decodes this
  -- request as it encoded it, and asynq chooses a lone pattern that is the task's type.
  pub consumer-publish_task :
      (env : WorkerEnv D) (choose : List String → String → Option String)
      → ChoosesSame env choose
      → (payload : InternalPayload D) (event : Event) (i : ℕ) (target : Consumer) (task : Enqueued)
      → (let q = (publication payload event i target).input in
          (b : String) → marshal q ≡ some b → env.decode b ≡ some q)
      → event.name ≢ ""
      → target.base_url ≢ ""
      → publish_task marshal enqueue (publication payload event i target) ≡ enqueued task
      → Called env (webhook_call env payload target) (consumer env choose task)
  unfolding publication notification
  consumer-publish_task env choose same payload event i target task decodes named addressed h =
      let p = publication payload event i target in
      let (topic, body) = publish_task-Carries p task h in
      consumer-Called env choose task (webhook_call env payload target) same topic (
        to_asynq_handler-Called env task p.input (decodes task.payload body)
          ((validate_request_iff p.input).1 (named, addressed)))
