-- ===== src/Delivery/Tests.antt =====
-- Deliveries of the sample message.
use gqueue.Delivery.{Env}
use gqueue.Delivery.Life.{life, publications, is_refused}
use gqueue.Common.{string_Eq}
use gqueue.Common.{
  ℕ, nat_eq, not, ◌≡◌, refl, true, false, some, [], ◌∷◌, pos, arith, lookup, insert,
}
use gqueue.Strconv.{atoi, itoa}
use gqueue.Delivery.{
  to_gpubsub_handler, handle_result, retryable, retry_parsed, dead_letter_topic, retry_counted,
  republish, delivered, archived_msg,
}
use gqueue.Delivery.Settlement.{settled, has_published, settled-to_gpubsub_handler}
use gqueue.Topic.{build_topic_name}
use gqueue.Delivery.Loss.{cancelled_loses}
use gqueue.Delivery.Retries.{AlwaysFails, attempts, attempts_exact}
use gqueue.Samples.{attributes, message, failing, interrupted}

settled-to_gpubsub_handler_example :
    settled (to_gpubsub_handler failing message).actions
    ≡ some (has_published failing (to_gpubsub_handler failing message).actions)
unfolding to_gpubsub_handler handle_result retryable retry_parsed atoi lookup insert
settled-to_gpubsub_handler_example = settled-to_gpubsub_handler failing message (refl, refl) refl

failing-AlwaysFails : AlwaysFails failing
failing-AlwaysFails = record {
  error = λ body. "refused";
  fails = λ body. refl;
  publishes = λ t m. refl;
  lives = (refl, refl);
}

attempts_exact_example :
    attempts 5 failing (λ m. m.body) (λ i. "x") message ≡ "t" ∷ "t" ∷ dead_letter_topic ∷ []
unfolding lookup itoa build_topic_name
attempts_exact_example =
    attempts_exact failing (λ m. m.body) (λ i. "x") "t" 2 5 message attributes failing-AlwaysFails
      refl refl refl refl refl (omega arith) (omega arith)

cancelled_loses_example :
    let run = to_gpubsub_handler interrupted message in
    (run.panicked ≡ false)
    × (settled run.actions ≡ some true)
    × (has_published interrupted run.actions ≡ false)
unfolding atoi lookup insert
cancelled_loses_example =
    cancelled_loses interrupted message "refused" attributes refl refl refl
      (pos 0, pos 2, refl, refl, refl)

-- The first delivery finds a broker that refuses the publication, the later ones one that takes it.
abbrev moody : ℕ → Env
moody i = record failing { publishes = λ t m. not (nat_eq i 8) }

-- The bound is reached.
bound_reached : publications (life 9 moody (λ m. m.body) (λ i. "x") message) ≡ 3
unfolding life is_refused lookup insert itoa atoi build_topic_name to_gpubsub_handler handle_result
    retryable retry_parsed retry_counted republish delivered archived_msg
bound_reached = refl
