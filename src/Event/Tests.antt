-- ===== src/Event/Tests.antt =====
-- The sample event's settings.
use gqueue.Common.{◌≡◌, ◌↔◌, none, some, pos}
use gqueue.Event.{validate, defined_opts, to_asynq_options, seven_days}
use gqueue.Event.Validate.{IsValidEvent, validate_iff}
use gqueue.Event.Options.{settle, unsettled, settle-defined_opts}
use gqueue.Samples.{payment, opt}

validate_iff_example : (validate 10 payment ≡ none) ↔ IsValidEvent 10 payment
validate_iff_example = validate_iff 10 payment

settle-defined_opts_example : settle unsettled (defined_opts (to_asynq_options opt)) ≡ record {
  queue = some "default";
  max_retry = some (pos 2);
  retention = some (pos seven_days);
  deadline = none;
  unique = some (pos 60);
  process_in = none;
}
settle-defined_opts_example = settle-defined_opts opt
