-- ===== src/TaskApp/Consuming.antt =====
-- Which tasks reach their webhook, and what is sent there.
use gqueue.Common.{
  String, ◌≡◌, ◌≢◌, ◌↔◌, refl, ap, ◌∙◌, string_Eq, Option, none, some, [], ◌∷◌, arith,
}
use gqueue.Fetch.{long_running}
use gqueue.Publisher.{RequestPayload}
use gqueue.Webhook.{
  Notification, ConsumerEnv, notification, request_handle, after_payload, after_validate,
  after_notify,
}
use gqueue.TaskApp.{validate_request, get_request_handle}

module _ {D : Type 0} where
  -- The request names an event and an address.
  abbrev pub IsAddressed : RequestPayload D → Type 0
  IsAddressed p = (p.event_name ≢ "") × (p.consumer.base_url ≢ "")

  pub validate_request_iff : (p : RequestPayload D) → (validate_request p ≡ none) ↔ IsAddressed p
  unfolding validate_request
  validate_request_iff p =
      ground (arith, string_Eq.same_iff p.event_name "", string_Eq.same_iff p.consumer.base_url "")

module _ {D : Type 0} (env : ConsumerEnv D) where
  abbrev pub task_notification : RequestPayload D → Notification D
  task_notification = notification env validate_request long_running (λ q. [])

  notified-after_notify :
      (p : RequestPayload D) (r : Option String)
      → (after_notify env validate_request long_running (λ q. []) p r).notified
        ≡ task_notification p ∷ []
  unfolding after_notify
  notified-after_notify p none = refl
  notified-after_notify p (some err) = refl

  after_validate_notified :
      (p : RequestPayload D) (v : Option String)
      → let r = after_validate env validate_request long_running (λ q. []) p v in
        ((v ≡ none) → r.notified ≡ task_notification p ∷ []) × ((v ≢ none) → r.notified ≡ [])
  unfolding after_validate
  after_validate_notified p none =
      ((λ _. notified-after_notify p (env.notify (task_notification p))), (λ h. absurd (h refl)))
  after_validate_notified p (some err) = ((λ h. cc), (λ _. refl))

  -- A task whose body reads as a request calls its webhook once where the request names an event and
  -- a base URL, and no webhook where it lacks one of these.
  pub get_request_handle_calls :
      (p : RequestPayload D)
      → env.payload ≡ some p
      → (IsAddressed p → (get_request_handle env).notified ≡ task_notification p ∷ [])
        × ((IsAddressed p → ⊥) → (get_request_handle env).notified ≡ [])
  unfolding get_request_handle request_handle after_payload
  get_request_handle_calls p h =
      let opened =
        ap (λ o. (after_payload env validate_request long_running (λ q. []) o).notified) h in
      let (called, silent) = after_validate_notified p (validate_request p) in
      let (to, from) = validate_request_iff p in
      ((λ a. opened ∙ called (from a)), (λ n. opened ∙ silent (λ e. n (to e))))
