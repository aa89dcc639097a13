-- ===== src/Telemetry/Instruments.antt =====
-- pkg/telemetry/metrics.go: what a metric asks of the meter that is in the context. `refuse` is the
-- error of a meter that makes an instrument, `none` for nil.
use gqueue.Common.{String, Option, none, some, List, ℤ, pos, negsuc}
use gqueue.Telemetry.{Package}
use gqueue.Telemetry.Context.{Entries, Answer, meter_from_context}

pub record Metric : Type 0 where
  pub name : String
  pub description : String

pub data Kind : Type 0 where
  counter up_down_counter histogram : Kind

abbrev pub Attributes : Type 0
Attributes = List (String × String)

-- A value of type A, handed to an instrument of a meter
pub record Measurement {ℓ} (A : Type ℓ) : Type ℓ where
  pub kind : Kind
  pub metric : Metric
  pub amount : A
  pub attributes : Attributes

pub data Recorded {ℓ} (A : Type ℓ) : Type ℓ where
  measured : Answer → Measurement A → Recorded A
  refused panicked : Recorded A

abbrev pub Refusals : Type 0
Refusals = Answer → Kind → Metric → Option String

module _ {ℓ} {A : Type ℓ} (refuse : Refusals) where
  abbrev pub after_instrument : Answer → Measurement A → Option String → Recorded A
  after_instrument meter m none = Recorded.measured meter m
  after_instrument meter m (some err) = Recorded.refused

  abbrev pub hand_to : Measurement A → Answer → Recorded A
  hand_to m Answer.panics = Recorded.panicked
  hand_to m (Answer.carried meter) =
      after_instrument (Answer.carried meter) m (refuse (Answer.carried meter) m.kind m.metric)
  hand_to m (Answer.by_default source) =
      after_instrument (Answer.by_default source) m
        (refuse (Answer.by_default source) m.kind m.metric)

module _ (refuse : Refusals) (ctx : Option Entries) (pkg : Package) where
  -- Metric.Count
  abbrev pub count : Metric → ℤ → Attributes → Recorded ℤ
  count m value attrs =
      hand_to refuse
        (record { kind = Kind.counter; metric = m; amount = value; attributes = attrs })
        (meter_from_context ctx pkg)

  -- Metric.Increment
  abbrev pub increment : Metric → Attributes → Recorded ℤ
  increment m attrs =
      hand_to refuse
        (record { kind = Kind.up_down_counter; metric = m; amount = pos 1; attributes = attrs })
        (meter_from_context ctx pkg)

  -- Metric.Decrement
  abbrev pub decrement : Metric → Attributes → Recorded ℤ
  decrement m attrs =
      hand_to refuse
        (record { kind = Kind.up_down_counter; metric = m; amount = negsuc 0; attributes = attrs })
        (meter_from_context ctx pkg)

  -- Metric.Record, on a floating point number
  abbrev pub record_value {ℓ} : {Float : Type ℓ} → Metric → Float → Attributes → Recorded Float
  record_value m value attrs =
      hand_to refuse
        (record { kind = Kind.histogram; metric = m; amount = value; attributes = attrs })
        (meter_from_context ctx pkg)
