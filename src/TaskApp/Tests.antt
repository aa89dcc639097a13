-- ===== src/TaskApp/Tests.antt =====
-- A task from the publisher to the webhook.
use gqueue.Common.{
  if◌then◌else◌, ◌==◌, string_Eq, ap, sym, or_zero, String, Option, none, some, List, [], ◌∷◌, ◌≡◌,
  refl, arith,
}
use gqueue.Event.{defined_opts}
use gqueue.Publisher.{RequestPayload}
use gqueue.TaskApp.{publication, Enqueued, enqueued, publish_task, request_topic}
use gqueue.TaskApp.Dispatch.{WorkerEnv, webhook_call, Called, consumer, consumer-publish_task}
use gqueue.Samples.{payload, payment, billing}

abbrev sent : RequestPayload String
sent = (publication payload payment 0 billing).input

abbrev marshal : RequestPayload String → Option String
marshal q = some "{}"

abbrev task : Enqueued
task = record {
  task_type = request_topic;
  payload = "{}";
  options = defined_opts (publication payload payment 0 billing).asynq_opts;
}

abbrev env : WorkerEnv String
env = record {
  decode = λ b. if b == "{}" then some sent else none;
  notify = λ n. some "503";
  started = 1000000;
  finished = 9000000;
  error_text = λ e. "handle task";
}

-- A mux that compares the whole type.
abbrev choose : List String → String → Option String
choose [] t = none
choose (p ∷ ps) t = if p == t then some p else choose ps t

choose_same : (p : String) → choose (p ∷ []) p ≡ some p
choose_same p = rw ((string_Eq.same_iff p p).1 refl) refl

decodes : (b : String) → marshal sent ≡ some b → env.decode b ≡ some sent
decodes b h = ap env.decode (sym (out h))
  where
    out : some "{}" ≡ some b → "{}" ≡ b
    out e = ap (λ o. or_zero "" o) e

publishes : publish_task marshal (λ t. none) (publication payload payment 0 billing) ≡ enqueued task
unfolding publish_task publication
publishes = refl

consumer-publish_task_example :
    Called env (webhook_call env payload billing) (consumer env choose task)
consumer-publish_task_example =
    consumer-publish_task marshal (λ t. none) env choose choose_same payload payment 0 billing task
      decodes (λ e. absurd (ground (arith, (string_Eq.same_iff payment.name "").1 e)))
      (λ e. absurd (ground (arith, (string_Eq.same_iff billing.base_url "").1 e))) publishes
