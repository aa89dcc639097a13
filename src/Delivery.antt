-- ===== src/Delivery.antt =====
-- The Pub/Sub side of pkg/asyncadapter (gbubsub_adapter.go) and of pkg/pubadapter
-- (pub_sub_google.go): what happens to one message that a subscription hands out.
--
-- A delivery is a list of actions in the order in which the code takes them, deferred calls
-- included. The handler, the publisher and the clock are what the environment answers.
pub mod Settlement
pub mod Loss
pub mod Retries
pub mod Bodies
pub mod Life
pub mod Termination
mod Tests
use gqueue.Common.{
  String, Bool, true, false, ◌||◌, Option, none, some, List, [], ◌∷◌, ◌++◌, if◌then◌else◌, ℤ, geb,
  increment, Dict, lookup, insert, or_zero, string_Eq,
}
use gqueue.Strconv.{atoi, itoa}
use gqueue.Topic.{build_topic_name, project_id, event_queue_dead_letter}

abbrev pub Attributes : Type 0
Attributes = Dict String String

-- pubsub.Message; a message without attributes has the nil map, `none`.
pub record Message : Type 0 where
  pub id : String
  pub body : String
  pub attributes : Option Attributes

-- `publish t m` is `pub.Publish(ctx, t, m, Opts{Attributes: m.Attributes})`; the two counters are
-- telemetry.
pub data Action : Type 0 where
  ack nack wait : Action
  publish : String → Message → Action
  count_dlq count_retry : String → Action

-- Which case of the `select` is taken.
pub data Wake : Type 0 where
  elapsed cancelled : Wake

pub record Env : Type 0 where
  -- the error of `h.Handler` on a body, `none` for nil
  pub handler : String → Option String
  -- whether a publication returns the nil error
  pub publishes : String → Message → Bool
  pub wakes : Wake
  -- whether `ctx.Err() != nil` after the wait
  pub done : Bool

pub record Run : Type 0 where
  pub actions : List Action
  pub panicked : Bool

abbrev pub dead_letter_topic : String
dead_letter_topic = build_topic_name project_id event_queue_dead_letter

-- `archivedMsg`: its deferred `Ack` comes last.
unfoldable pub archived_msg : Env → Message → List Action
archived_msg env msg =
    publish dead_letter_topic msg
    ∷ ((if env.publishes dead_letter_topic msg then [] else nack ∷ []) ++ ack ∷ [])

-- The end of `retryable`, behind the wait.
unfoldable pub republish : Env → String → Message → List Action
republish env topic msg = elim env.wakes [
  | cancelled ↦ []
  | elapsed ↦
      if env.done
      then []
      else publish topic msg ∷ (if env.publishes topic msg then [] else nack ∷ [])
]

-- `retryable` on the message whose attributes are `attrs`, without its deferred `Ack`.
unfoldable pub retry_counted : Env → Message → Attributes → ℤ → ℤ → List Action
retry_counted env msg attrs retry_count max_retry_attempts =
    let topic = or_zero "" (lookup "topic" attrs) in
    if geb retry_count max_retry_attempts
    then count_dlq topic ∷ archived_msg env (record msg { attributes = some attrs })
    else count_retry topic
      ∷ wait
      ∷ republish env topic (record msg {
        attributes = some (insert "retry_count" (itoa (increment retry_count)) attrs);
      })

-- `retry_count` is "0" where the attribute is missing; `max_retries` is then "".
abbrev pub str_retry_count : Attributes → String
str_retry_count attrs = or_zero "0" (lookup "retry_count" attrs)

abbrev pub str_max_retry_count : Attributes → String
str_max_retry_count attrs = or_zero "" (lookup "max_retries" attrs)

-- The two counts as `strconv.Atoi` reads them: one that is no number panics, the retry count first.
-- The deferred `Ack` is run in any case.
unfoldable pub retry_parsed : Env → Message → Attributes → Option ℤ → Option ℤ → Run
retry_parsed env msg attrs none _ = record { actions = ack ∷ []; panicked = true }
retry_parsed env msg attrs (some c) none = record { actions = ack ∷ []; panicked = true }
retry_parsed env msg attrs (some c) (some n) = record {
  actions = retry_counted env msg attrs c n ++ ack ∷ [];
  panicked = false;
}

unfoldable pub retryable : Env → Message → Attributes → Run
retryable env msg attrs =
    retry_parsed env msg attrs (atoi (str_retry_count attrs)) (atoi (str_max_retry_count attrs))

-- What follows the handler's result. Writing the error into a nil map of attributes panics.
unfoldable pub handle_result : Env → Message → Option String → Option Attributes → Run
handle_result env msg none _ = record { actions = ack ∷ []; panicked = false }
handle_result env msg (some err) none = record { actions = []; panicked = true }
handle_result env msg (some err) (some attrs) = retryable env msg (insert "msg" err attrs)

-- The function that `ToGPubSubHandler` returns: its deferred `Nack` is run in any case.
unfoldable pub to_gpubsub_handler : Env → Message → Run
to_gpubsub_handler env msg =
    let run = handle_result env msg (env.handler msg.body) msg.attributes in
    record run { actions = run.actions ++ nack ∷ [] }

-- The attributes that `PubSubGoogle.Publish` puts on a message.
unfoldable pub published_attributes : String → Attributes → Attributes
published_attributes topic_name [] = ("max_retries", "1") ∷ ("topic", topic_name) ∷ []
published_attributes topic_name (a ∷ attrs) = a ∷ attrs

-- The message that a subscription of the topic receives for `publish topic msg`: the whole of `msg`
-- as JSON is its body. The broker chooses the id.
unfoldable pub delivered : (Message → String) → String → String → Message → Message
unfolding published_attributes
delivered marshal id topic msg = record {
  id = id;
  body = marshal msg;
  attributes = some (published_attributes topic (or_zero [] msg.attributes));
}
