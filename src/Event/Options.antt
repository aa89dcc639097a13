-- ===== src/Event/Options.antt =====
-- Which retry count, retention and queue an event's settings end in.
use gqueue.Common.{
  ℕ, ◌≡◌, Option, none, some, List, [], ◌∷◌, arith, ℤ, pos, String, is_positive, if◌then◌else◌,
}
use gqueue.Event.{
  Opt, AsynqOption, queue, max_retry, retention, deadline, unique, process_in, to_asynq_options,
  seven_days, defined_opts,
}

-- What a task ends with when each later option of a kind replaces the earlier ones.
pub record Settled : Type 0 where
  pub queue : Option String
  pub max_retry : Option ℤ
  pub retention : Option ℤ
  pub deadline : Option ℕ
  pub unique : Option ℤ
  pub process_in : Option ℤ

abbrev pub unsettled : Settled
unsettled = record {
  queue = none;
  max_retry = none;
  retention = none;
  deadline = none;
  unique = none;
  process_in = none;
}

abbrev pub settle : Settled → List AsynqOption → Settled
settle s [] = s
settle s (queue q ∷ os) = settle (record s { queue = some q }) os
settle s (max_retry n ∷ os) = settle (record s { max_retry = some n }) os
settle s (retention d ∷ os) = settle (record s { retention = some d }) os
settle s (deadline t ∷ os) = settle (record s { deadline = some t }) os
settle s (unique d ∷ os) = settle (record s { unique = some d }) os
settle s (process_in d ∷ os) = settle (record s { process_in = some d }) os

abbrev positive_or : ℤ → Option ℤ → Option ℤ
positive_or d other = if is_positive d then some d else other

-- The options that `Task.Publish` enqueues settle to: the queue "default"; the event's retry count
-- and retention where these are positive, else 3 retries and 7 days; its deadline, unique and
-- schedule durations where they are set.
pub settle-defined_opts :
    (o : Opt)
    → settle unsettled (defined_opts (to_asynq_options o)) ≡ record {
      queue = some "default";
      max_retry = positive_or o.max_retries (some (pos 3));
      retention = positive_or o.retention (some (pos seven_days));
      deadline = o.deadline;
      unique = positive_or o.unique_ttl none;
      process_in = positive_or o.schedule_in none;
    }
unfolding defined_opts to_asynq_options
settle-defined_opts o = ground arith
