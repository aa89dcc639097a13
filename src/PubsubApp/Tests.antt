-- ===== src/PubsubApp/Tests.antt =====
-- The Pub/Sub service on the sample data.
use gqueue.Common.{
  ℕ, nat_eq, not, ◌≢◌, Option, ◌==◌, string_Eq, if◌then◌else◌, String, ◌≡◌, refl, true, none, some,
  [], ◌∷◌,
}
use gqueue.MemStore.{found, new_mem_store, get_all_schedulers, refresh}
use gqueue.Delivery.{Env, to_gpubsub_handler}
use gqueue.Delivery.Settlement.{settled}
use gqueue.Delivery.Retries.{AlwaysFails}
use gqueue.Fetch.{high_throughput}
use gqueue.Publisher.{RequestPayload, merge_headers}
use gqueue.PubsubApp.{publication, get_request_handle}
use gqueue.PubsubApp.Consuming.{get_request_handle-publication}
use gqueue.Delivery.Life.{life}
use gqueue.PubsubApp.Retrying.{
  calls_of, webhook_calls, rounds, times, RefusesMessages, webhook_calls-life,
}
use gqueue.PubsubApp.DeadLetters.{
  DeadMessage, AreLetters, targets, dead_letter_handle, dead_letter_handle_calls,
  dead_letters_dropped,
}
use gqueue.Samples.{
  payment, refund, billing, failing, message, payload, publisher_env, request, consumer_env,
}

failing-AlwaysFails : AlwaysFails failing
failing-AlwaysFails = record {
  error = λ body. "refused";
  fails = λ body. refl;
  publishes = λ t m. refl;
  lives = (refl, refl);
}

get_request_handle-publication_example :
    (get_request_handle consumer_env).notified
    ≡ record {
      content = some "{}";
      headers = merge_headers payload.metadata.headers billing.headers;
      consumer = billing;
      opt = high_throughput;
    }
      ∷ []
unfolding publication
get_request_handle-publication_example =
    get_request_handle-publication consumer_env publisher_env payload payment 0 billing refl

abbrev dead_message : DeadMessage String
dead_message = record {
  id = "m";
  content = "{}";
  attributes = message.attributes;
  publish_time = 3;
}

dead_letter_handle_calls_example :
    let r = dead_letter_handle (λ state. found (payment ∷ refund ∷ [])) (some dead_message) in
    (r.error ≡ none) × AreLetters dead_message (targets (payment ∷ refund ∷ [])) r.calls
dead_letter_handle_calls_example =
    dead_letter_handle_calls dead_message (λ state. found (payment ∷ refund ∷ []))
      (payment ∷ refund ∷ []) refl

-- A handler that never fails, as the dead letter consumer is on a body that it can read.
abbrev taking : Env
taking = record failing { handler = λ body. none }

dead_letters_dropped_example :
    let r =
      dead_letter_handle
        (get_all_schedulers (refresh new_mem_store (payment ∷ [])))
        (some dead_message) in
    (r.calls ≡ []) × (settled (to_gpubsub_handler taking message).actions ≡ some true)
unfolding dead_letter_handle get_all_schedulers
dead_letters_dropped_example =
    dead_letters_dropped (λ body. some dead_message) (λ e. "error")
      (refresh new_mem_store (payment ∷ [])) taking message dead_message refl refl

abbrev decode : String → Option (RequestPayload String)
decode body = if body == "{}" then some request else none

-- A broker that refuses the publication of the first delivery.
abbrev refusing_first : ℕ → Env
refusing_first i = record failing { publishes = λ t m. not (nat_eq i 2) }

unread : RefusesMessages decode consumer_env (λ m. "a message")
unread = record { refuses = λ m full. refl; full = λ m e. cc e }

message_full : message.body ≢ ""
message_full e = cc e

webhook_calls-life_example :
    webhook_calls decode consumer_env (life 3 refusing_first (λ m. "a message") (λ i. "x") message)
    ≡ rounds decode consumer_env
        (times 3 refusing_first message)
        (calls_of decode consumer_env "{}")
webhook_calls-life_example =
    webhook_calls-life decode consumer_env (λ m. "a message") unread refusing_first (λ i. "x") 3
      message message_full
