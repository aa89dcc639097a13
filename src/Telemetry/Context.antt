-- ===== src/Telemetry/Context.antt =====
-- pkg/telemetry/context.go: the meter that a context carries.
use gqueue.Common.{String, Option, none, some, List, [], ◌∷◌, ◌++◌, map, ◌≡◌, refl, ap}
use gqueue.Telemetry.{Package, MeterSource, meter}

-- metric.Meter, by a name that tells it from others; `none` is nil.
abbrev pub Meter : Type 0
Meter = Option String

-- A value in a context: under `meterKey`, or under another key.
pub data Entry : Type 0 where
  under_meter_key : Meter → Entry
  under_other_key : String → Entry

-- The values that were put in, the last one first
abbrev pub Entries : Type 0
Entries = List Entry

-- WithMeter; a nil context is `none`, and so is the panic of context.WithValue on it.
unfoldable pub with_meter : Option Entries → Meter → Option Entries
with_meter none m = none
with_meter (some entries) m = some (under_meter_key m ∷ entries)

-- ctx.Value(meterKey).(metric.Meter), with `none` where the assertion fails or its result is nil
unfoldable pub meter_value : Entries → Meter
meter_value [] = none
meter_value (under_meter_key m ∷ entries) = m
meter_value (under_other_key key ∷ entries) = meter_value entries

pub data Answer : Type 0 where
  carried : String → Answer
  by_default : MeterSource → Answer
  panics : Answer

abbrev pub meter_or_default : Package → Meter → Answer
meter_or_default pkg (some m) = Answer.carried m
meter_or_default pkg none = Answer.by_default (meter pkg)

-- MeterFromContext. The context's logger is read first, and to read a value of a nil context panics.
unfoldable pub meter_from_context : Option Entries → Package → Answer
unfolding meter_value
meter_from_context none pkg = Answer.panics
meter_from_context (some entries) pkg = meter_or_default pkg (meter_value entries)

meter_value-others :
    (keys : List String) (entries : Entries)
    → meter_value (map under_other_key keys ++ entries) ≡ meter_value entries
unfolding meter_value
meter_value-others [] entries = refl
meter_value-others (key ∷ keys) entries = meter_value-others keys entries

-- Below any number of values under other keys, a meter that was put in is the one that is found,
-- whatever meters the context had before; a nil meter hides them, and the package's own is used.
pub meter_from_context-with_meter :
    (keys : List String) (entries : Entries) (m : Meter) (pkg : Package)
    → let after = map under_other_key keys ++ (under_meter_key m ∷ entries) in
      (with_meter (some entries) m ≡ some (under_meter_key m ∷ entries))
      × (meter_from_context (some after) pkg
          ≡ elim m [ some given ↦ Answer.carried given | none ↦ Answer.by_default (meter pkg) ])
unfolding with_meter meter_from_context meter_value
meter_from_context-with_meter keys entries none pkg =
    (refl, ap (meter_or_default pkg) (meter_value-others keys (under_meter_key none ∷ entries)))
meter_from_context-with_meter keys entries (some m) pkg =
    (refl, ap (meter_or_default pkg) (meter_value-others keys (under_meter_key (some m) ∷ entries)))
