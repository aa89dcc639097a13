-- ===== src/Event.antt =====
-- internal/domain/event.go, and the options of pkg/pubadapter (opts.go, pub_sub_asynq.go) that an
-- event's settings become.
pub mod Validate
pub mod Options
pub mod Url
mod Tests
use gqueue.Common.{
  ℕ, ◌*◌, String, Bool, true, false, ◌||◌, List, [], ◌∷◌, ◌++◌, length, ltb, nat_eq, if◌then◌else◌,
  ◌==◌, Option, none, some, ℤ, pos, negsuc, is_positive, is_negative, Dict, string_Eq,
}

-- A missing key of a JSON map leaves a nil map, `none`.
pub record Consumer : Type 0 where
  pub service_name : String
  pub base_url : String
  pub path : String
  pub headers : Option (Dict String String)

-- Durations are int64 nanoseconds, the deadline is a time in nanoseconds.
pub record Opt : Type 0 where
  pub deadline : Option ℕ
  pub retention : ℤ
  pub unique_ttl : ℤ
  pub schedule_in : ℤ
  pub max_retries : ℤ
  pub wq_type : String

pub record Event : Type 0 where
  pub id : String
  pub name : String
  pub service_name : String
  pub state : String
  pub type : String
  pub option : Opt
  pub consumers : List Consumer

-- Why a payload is refused.
pub data Invalid : Type 0 where
  event_type wq_type_required worker_type max_retries_range no_consumer too_many_consumers : Invalid

-- WQType.Validate: true is the nil error.
unfoldable pub wq_type_known : String → Bool
wq_type_known wt = wt == "low_throughput" || wt == "high_throughput" || wt == "low_latency"

-- o.MaxRetries > 5
abbrev pub above_five : ℤ → Bool
above_five (pos n) = ltb 5 n
above_five (negsuc n) = false

-- Opt.Validate; `none` is the nil error.
unfoldable pub validate_opt : Opt → Option Invalid
validate_opt o =
    if o.wq_type == ""
    then some wq_type_required
    else if wq_type_known o.wq_type
    then if is_negative o.max_retries || above_five o.max_retries
      then some max_retries_range
      else none
    else some worker_type

-- `max_consumers` is `cfg.Get().MaxConsumers`.
abbrev pub validate_consumers : ℕ → List Consumer → Option Invalid
validate_consumers max_consumers consumers =
    if nat_eq (length consumers) 0
    then some no_consumer
    else if ltb max_consumers (length consumers)
    then some too_many_consumers
    else none

-- if err := e.Option.Validate(); err != nil { return … }
abbrev pub or_else : Option Invalid → Option Invalid → Option Invalid
or_else (some e) next = some e
or_else none next = next

-- Event.Validate
unfoldable pub validate : ℕ → Event → Option Invalid
validate max_consumers e =
    if e.type == "internal" || e.type == "external"
    then or_else (validate_opt e.option) (validate_consumers max_consumers e.consumers)
    else some event_type

-- The options of github.com/hibiken/asynq that the program builds.
pub data AsynqOption : Type 0 where
  queue : String → AsynqOption
  max_retry : ℤ → AsynqOption
  retention : ℤ → AsynqOption
  deadline : ℕ → AsynqOption
  unique : ℤ → AsynqOption
  process_in : ℤ → AsynqOption

-- opts = append(opts, …) under a test
abbrev pub when : Bool → AsynqOption → List AsynqOption
when true x = x ∷ []
when false x = []

abbrev pub when_some : Option ℕ → List AsynqOption
when_some none = []
when_some (some t) = deadline t ∷ []

-- Opt.ToAsynqOptions
unfoldable pub to_asynq_options : Opt → List AsynqOption
to_asynq_options o =
    when (is_positive o.max_retries) (max_retry o.max_retries)
    ++ (when (is_positive o.retention) (retention o.retention)
        ++ (when_some o.deadline
            ++ (when (is_positive o.unique_ttl) (unique o.unique_ttl)
                ++ when (is_positive o.schedule_in) (process_in o.schedule_in))))

-- 168 * time.Hour
abbrev pub seven_days : ℕ
seven_days = 168 * 3600 * 1000000000

-- NewDefaultOpt
abbrev pub new_default_opt : List AsynqOption
new_default_opt = queue "default" ∷ (max_retry (pos 3) ∷ (retention (pos seven_days) ∷ []))

-- The options that `Task.Publish` hands to `Enqueue`: the defaults, then those of the event.
unfoldable pub defined_opts : List AsynqOption → List AsynqOption
defined_opts asynqopts = new_default_opt ++ asynqopts
