-- ===== src/PubsubApp/Publishing.antt =====
-- From a publication to the end of its life on the Pub/Sub side.
use gqueue.Common.{
  ℕ, ◌<◌, String, ◌≡◌, refl, false, [], ◌∷◌, lookup, string_Eq, ◌==◌, some, none, arith, pos,
}
use gqueue.Strconv.{itoa}
use gqueue.Topic.{build_topic_name}
use gqueue.Event.{Consumer, Event}
use gqueue.Delivery.{Env, Message, Attributes, published_attributes, dead_letter_topic}
use gqueue.Delivery.Retries.{AlwaysFails, attempts, attempts_exact}
use gqueue.Publisher.{InternalPayload, RequestPayload, PublisherEnv}
use gqueue.PubsubApp.{publication, request_message, request_topic}

abbrev first_attributes : Attributes
first_attributes = ("topic", request_topic) ∷ ("max_retries", "1") ∷ []

first_lookups :
    (lookup "topic" first_attributes ≡ some request_topic)
    × (lookup "max_retries" first_attributes ≡ some (itoa (pos 1)))
    × (lookup "retry_count" first_attributes ≡ none)
unfolding lookup itoa
first_lookups = (refl, refl, refl)

topics_differ : (request_topic == dead_letter_topic) ≡ false
unfolding build_topic_name
topics_differ = refl

-- A request whose deliveries all fail is delivered twice, while the broker takes every publication
-- and the context lives: whatever the event and the consumer, its message is published once more to
-- the topic of the requests, and then to the dead letter topic.
pub publication-attempts :
    {D : Type 0} (penv : PublisherEnv D) (payload : InternalPayload D) (event : Event) (i : ℕ)
    (consumer : Consumer) (marshal : RequestPayload D → String) (env : Env)
    (remarshal : Message → String) (ids : ℕ → String) (id : String) (f : ℕ)
    → AlwaysFails env
    → 1 < f
    → attempts f env remarshal ids
        (request_message marshal id (publication penv payload event i consumer))
      ≡ request_topic ∷ dead_letter_topic ∷ []
unfolding publication request_message published_attributes
publication-attempts penv payload event i consumer marshal env remarshal ids id f fails fuel =
    attempts_exact env remarshal ids request_topic 1 f _ first_attributes fails topics_differ refl
      first_lookups.0 first_lookups.1 first_lookups.2 (omega arith) fuel
