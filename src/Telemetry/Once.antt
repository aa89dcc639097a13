-- ===== src/Telemetry/Once.antt =====
-- What the first call of New decides.
use gqueue.Common.{String, Bool, true, false, Option, none, some, List, [], ◌∷◌, ◌≡◌, refl, ◌∙◌, ap}
use gqueue.Telemetry.{
  Provider, Package, init, outcome, new, shutdown, MeterSource, meter, handler, run,
}

-- The package after the first call
abbrev pub started : Bool → Option String → Package
started enabled exporter = (new enabled exporter init).0

started_done : (enabled : Bool) (exporter : Option String) → (started enabled exporter).done ≡ true
unfolding new
started_done false exporter = refl
started_done true none = refl
started_done true (some err) = refl

new_later :
    (enabled : Bool) (exporter : Option String) (pkg : Package)
    → pkg.done ≡ true
    → new enabled exporter pkg ≡ (pkg, outcome pkg.state_val)
unfolding new
new_later enabled exporter pkg h = rw h refl

run_later :
    (calls : List (Bool × Option String)) (pkg : Package) → pkg.done ≡ true → run calls pkg ≡ pkg
unfolding run
run_later [] pkg h = refl
run_later ((enabled, exporter) ∷ calls) pkg h =
    ap (λ r. run calls r.0) (new_later enabled exporter pkg h) ∙ run_later calls pkg h

-- After a first call of New, whatever its configuration, further calls change nothing, and each of
-- them, with any configuration, returns what the first returned.
pub new_once :
    (enabled other : Bool) (exporter other_exporter : Option String)
    → (calls : List (Bool × Option String))
    → let first = new enabled exporter init in
      let later = run calls first.0 in
      (later ≡ first.0) × ((new other other_exporter later).1 ≡ first.1)
unfolding new
new_once enabled other exporter other_exporter calls =
    let same = run_later calls (started enabled exporter) (started_done enabled exporter) in
    (
      same,
      ap (λ pkg. (new other other_exporter pkg).1) same
          ∙ ap (λ r. r.1)
              (new_later other other_exporter (started enabled exporter)
                (started_done enabled exporter)),
    )

-- After a first call that failed the placeholder is served, a shutdown asks no provider and succeeds,
-- and the meters are those of OpenTelemetry without a provider.
pub new_failed :
    (exporter_error : String) (answer : Provider → Option String)
    → let pkg = started true (some exporter_error) in
      (handler pkg ≡ handler init)
      × (shutdown answer pkg ≡ none)
      × (meter pkg ≡ MeterSource.global none)
unfolding new handler shutdown meter
new_failed exporter_error answer = (refl, refl, refl)
