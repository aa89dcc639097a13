-- ===== src/PubsubApp/Consuming.antt =====
-- From a request that is published to the webhook call of its delivery.
use gqueue.Common.{ℕ, String, ◌≡◌, refl, ap, ◌∙◌, Option, none, some, [], ◌∷◌}
use gqueue.Event.{Consumer, Event}
use gqueue.Fetch.{high_throughput}
use gqueue.Publisher.{InternalPayload, RequestPayload, PublisherEnv, merge_headers}
use gqueue.Webhook.{
  ConsumerEnv, notification, request_handle, after_payload, after_validate, after_notify,
}
use gqueue.PubsubApp.{publication, lag, get_request_handle}

module _ {D : Type 0} (env : ConsumerEnv D) where
  notified-after_notify :
      (p : RequestPayload D) (r : Option String)
      → (after_notify env (λ q. none) high_throughput (lag env) p r).notified
        ≡ notification env (λ q. none) high_throughput (lag env) p ∷ []
  unfolding after_notify
  notified-after_notify p none = refl
  notified-after_notify p (some err) = refl

  -- A delivery whose body reads as a request that the publisher made for a consumer of an event
  -- calls the webhook once, at that consumer, with the content that the client sent, and with the
  -- headers of the client's metadata under those of the consumer.
  pub get_request_handle-publication :
      (penv : PublisherEnv D) (payload : InternalPayload D) (event : Event) (i : ℕ)
      (consumer : Consumer)
      → env.payload ≡ some (publication penv payload event i consumer).input
      → (get_request_handle env).notified
        ≡ record {
          content = payload.content;
          headers = merge_headers payload.metadata.headers consumer.headers;
          consumer = consumer;
          opt = high_throughput;
        }
          ∷ []
  unfolding get_request_handle request_handle after_payload after_validate publication notification
  get_request_handle-publication penv payload event i consumer h =
      ap (λ o. (after_payload env (λ q. none) high_throughput (lag env) o).notified) h
      ∙ notified-after_notify (publication penv payload event i consumer).input (
          env.notify (
            notification env (λ q. none) high_throughput (lag env)
              (publication penv payload event i consumer).input))
