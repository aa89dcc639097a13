-- ===== src/Subscriber/Registration.antt =====
-- When a subscriber receives, and on which topics.
use gqueue.Common.{String, Bool, true, false, ◌≡◌, ◌↔◌, refl, Option, none, some, List, [], ◌∷◌}
use gqueue.Delivery.{dead_letter_topic}
use gqueue.Publisher.{request_topic}
use gqueue.Common.{Try, ok, error}
use gqueue.Subscriber.{
  Call, topic_exists, create_topic, subscription_exists, create_subscription, receive, Broker,
  subscription_name, after_create_subscription, after_subscription_exists, subscribe,
  after_create_topic, after_topic_exists, start_subscriber, handler_topics,
}

-- The calls end in receiving.
abbrev pub receives : List Call → Bool
receives [] = false
receives (receive s ∷ rest) = true
receives (topic_exists t ∷ rest) = receives rest
receives (create_topic t ∷ rest) = receives rest
receives (subscription_exists s ∷ rest) = receives rest
receives (create_subscription s t d ∷ rest) = receives rest

-- It is there, or it is not and can be made.
abbrev pub Available : Try Bool → Option String → Type 0
Available (error err) made = ⊥
Available (ok true) made = Unit
Available (ok false) made = made ≡ none

module _ (broker : Broker) (topic_name : String) where
  created :
      (made : Option String)
      → (receives (after_create_subscription broker topic_name made) ≡ true) ↔ (made ≡ none)
  created none = ((λ _. refl), (λ _. refl))
  created (some err) = ((λ h. cc), (λ h. cc))

  after_subscription_exists_iff :
      (r : Try Bool)
      → (receives (after_subscription_exists broker topic_name r) ≡ true)
        ↔ Available r (broker.makes_subscription (subscription_name broker topic_name))
  after_subscription_exists_iff (error err) = ((λ h. cc), (λ h. absurd h))
  after_subscription_exists_iff (ok true) = ((λ _. tt), (λ _. refl))
  after_subscription_exists_iff (ok false) =
      created (broker.makes_subscription (subscription_name broker topic_name))

  abbrev pub SubscriptionAvailable : Type 0
  SubscriptionAvailable =
      Available (broker.has_subscription (subscription_name broker topic_name))
        (broker.makes_subscription (subscription_name broker topic_name))

  subscribe_iff : (receives (subscribe broker topic_name) ≡ true) ↔ SubscriptionAvailable
  unfolding subscribe
  subscribe_iff =
      after_subscription_exists_iff (broker.has_subscription (subscription_name broker topic_name))

  made_topic :
      (made : Option String)
      → (receives (after_create_topic broker topic_name made) ≡ true)
        ↔ ((made ≡ none) × SubscriptionAvailable)
  made_topic none = ((λ h. (refl, subscribe_iff.0 h)), (λ h. subscribe_iff.1 h.1))
  made_topic (some err) = ((λ h. cc), (λ h. cc (h.0)))

  after_topic_exists_iff :
      (r : Try Bool)
      → (receives (after_topic_exists broker topic_name r) ≡ true)
        ↔ (Available r (broker.makes_topic topic_name) × SubscriptionAvailable)
  after_topic_exists_iff (error err) = ((λ h. cc), (λ h. absurd h.0))
  after_topic_exists_iff (ok true) = ((λ h. (tt, subscribe_iff.0 h)), (λ h. subscribe_iff.1 h.1))
  after_topic_exists_iff (ok false) = made_topic (broker.makes_topic topic_name)

  -- A subscriber receives messages exactly where its topic is there or can be created, and so can
  -- its subscription.
  pub start_subscriber_iff : (receives (start_subscriber broker topic_name) ≡ true) ↔ (
      Available (broker.has_topic topic_name) (broker.makes_topic topic_name)
      × SubscriptionAvailable)
  unfolding start_subscriber
  start_subscriber_iff = after_topic_exists_iff (broker.has_topic topic_name)

-- The subscribers' topics are the one on which failed messages end and the one to which the
-- publishers send.
pub handler_topics_lem : handler_topics ≡ dead_letter_topic ∷ request_topic ∷ []
unfolding handler_topics
handler_topics_lem = refl
