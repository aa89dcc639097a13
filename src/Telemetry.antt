-- ===== src/Telemetry.antt =====
-- pkg/telemetry/telemetry.go: the state of the package behind sync.Once, as a value that each call is
-- given and returns. The OpenTelemetry library and the Prometheus handler are parameters.
pub mod Balance
pub mod Context
pub mod Instruments
pub mod Once
pub mod Outcomes
mod Tests
use gqueue.Common.{String, Bool, true, false, Option, none, some, List, [], ◌∷◌, Try, ok, error}

-- The handlers that the package serves: two constant texts, and Prometheus' own.
pub data Handler : Type 0 where
  placeholder disabled prometheus : Handler

-- With a reader of the exporter or without one
pub data Provider : Type 0 where
  without_reader with_exporter : Provider

pub record State : Type 0 where
  pub provider : Option Provider
  pub handler : Handler
  pub init_err : Option String

-- The variables `once` and `stateVal`, and the provider that OpenTelemetry holds as its global one.
pub record Package : Type 0 where
  pub done : Bool
  pub state_val : State
  pub global_provider : Option Provider

-- init
abbrev pub init : Package
init = record {
  done = false;
  state_val = record { provider = none; handler = Handler.placeholder; init_err = none };
  global_provider = none;
}

abbrev pub published : Package → Provider → Handler → Package
published pkg provider handler = record {
  done = true;
  state_val = record { provider = some provider; handler = handler; init_err = none };
  global_provider = some provider;
}

abbrev pub after_exporter : Package → Option String → Package
after_exporter pkg (some err) = record pkg {
  done = true;
  state_val = record { provider = none; handler = pkg.state_val.handler; init_err = some err };
}
after_exporter pkg none = published pkg Provider.with_exporter Handler.prometheus

-- The function that `once` runs; `exporter` is the error of otelprom.New, `none` for nil.
abbrev pub initialize : Bool → Option String → Package → Package
initialize false exporter pkg = published pkg Provider.without_reader Handler.disabled
initialize true exporter pkg = after_exporter pkg exporter

abbrev pub once_do : Bool → Bool → Option String → Package → Package
once_do true enabled exporter pkg = pkg
once_do false enabled exporter pkg = initialize enabled exporter pkg

abbrev pub outcome : State → Try Handler
outcome s = elim s.init_err [ some err ↦ error err | none ↦ ok s.handler ]

-- New: what the package is afterwards, and what is returned.
unfoldable pub new : Bool → Option String → Package → Package × Try Handler
new enabled exporter pkg =
    let next = once_do pkg.done enabled exporter pkg in (next, outcome next.state_val)

-- Shutdown, on what a provider answers
unfoldable pub shutdown : (Provider → Option String) → Package → Option String
shutdown answer pkg = elim pkg.state_val.provider [ none ↦ none | some p ↦ answer p ]

-- Whose meter a call of Meter uses
pub data MeterSource : Type 0 where
  own : Provider → MeterSource
  global : Option Provider → MeterSource

unfoldable pub meter : Package → MeterSource
meter pkg = elim pkg.state_val.provider [
  | none ↦ MeterSource.global pkg.global_provider
  | some p ↦ MeterSource.own p
]

-- Handler
unfoldable pub handler : Package → Handler
handler pkg = pkg.state_val.handler

-- Any number of further calls of New, each with its own configuration
unfoldable pub run : List (Bool × Option String) → Package → Package
unfolding new
run [] pkg = pkg
run ((enabled, exporter) ∷ calls) pkg = run calls (new enabled exporter pkg).0
