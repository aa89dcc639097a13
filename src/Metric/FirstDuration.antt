-- ===== src/Metric/FirstDuration.antt =====
-- Which durations the percentiles of the insights are taken of.
use gqueue.Common.{
  ℕ, String, Bool, ◌&&◌, ◌≡◌, refl, ◌∙◌, ◌==◌, string_Eq, Option, none, some, List, [], ◌∷◌,
  if◌then◌else◌, Dict, lookup, lookup-insert, overlay, or_zero, arith, Bool-cases, inl, inr,
}
use gqueue.Float64.{constant_99, constant_75, rounded, grain, round_to}
use gqueue.Metric.{
  Metric, Gathered, note_duration, gather_consumed, gather_published, gather, no_durations,
  percentile, percentiles, insights, joined, sort, place, percentile_index,
}
use gqueue.Metric.Totals.{is_consumed, is_published, step}

-- The duration of the first metric of a kind.
abbrev pub first_duration : (Metric → Bool) → List Metric → Option ℕ
first_duration kind [] = none
first_duration kind (m ∷ ms) =
    let later = first_duration kind ms in if kind m then some m.time_duration_ms else later

abbrev alone : Option ℕ → Option (List ℕ)
alone none = none
alone (some d) = some (d ∷ [])

lookup-note_duration :
    (key other : String) (d : ℕ) (m : Dict String (List ℕ))
    → lookup other (note_duration key d m)
      ≡ overlay (lookup other m) (if key == other then some (d ∷ []) else none)
unfolding note_duration
lookup-note_duration key other d m =
    ground (arith, lookup-insert key other (d ∷ []) m, string_Eq.same_iff key other)

abbrev pub published_on : String → Metric → Bool
published_on topic m = is_published m && (m.topic_name == topic)

abbrev pub consumed_on : String → Metric → Bool
consumed_on key m = is_consumed m && (joined m.topic_name "." m.consumer_name == key)

-- A map of durations that every round notes for the metrics of a kind.
lookup-gather :
    (f : Gathered → Dict String (List ℕ)) (key : String) (kind : Metric → Bool)
    → ((m : Metric) (g : Gathered)
        → lookup key (f (step m g))
          ≡ overlay (lookup key (f g)) (if kind m then some (m.time_duration_ms ∷ []) else none))
    → (ms : List Metric) (g : Gathered)
    → lookup key (f (gather ms g)) ≡ overlay (lookup key (f g)) (alone (first_duration kind ms))
unfolding gather
lookup-gather f key kind notes [] g = ground arith
lookup-gather f key kind notes (m ∷ ms) g =
    lookup-gather f key kind notes ms (step m g) ∙ ground (arith, notes m g)

lookup-percentiles :
    (p : ℕ) (key : String) (m : Dict String (List ℕ))
    → lookup key (percentiles p m)
      ≡ elim (lookup key m) [ none ↦ none | some ds ↦ some (or_zero 0 (percentile ds p)) ]
unfolding lookup
lookup-percentiles p key [] = refl
lookup-percentiles p key ((k, ds) ∷ m) = elim (Bool-cases (k == key)) [
  | inl same ↦ rw same refl
  | inr differs ↦ rw differs (lookup-percentiles p key m)
]

lookup-percentiles-alone :
    (key : String) (m : Dict String (List ℕ)) (o : Option ℕ)
    → lookup key m ≡ alone o
    → (lookup key (percentiles constant_99 m) ≡ o) × (lookup key (percentiles constant_75 m) ≡ o)
unfolding percentile sort place percentile_index rounded grain round_to
lookup-percentiles-alone key m none h = (
  rw (lookup-percentiles constant_99 key m, h) refl,
  rw (lookup-percentiles constant_75 key m, h) refl,
)
lookup-percentiles-alone key m (some d) h = (
  rw (lookup-percentiles constant_99 key m, h) refl,
  rw (lookup-percentiles constant_75 key m, h) refl,
)

step_published :
    (key : String) (m : Metric) (g : Gathered)
    → lookup key (step m g).durations_published
      ≡ overlay
          (lookup key g.durations_published)
          (if published_on key m then some (m.time_duration_ms ∷ []) else none)
unfolding gather_consumed gather_published
step_published key m g =
    ground (arith, lookup-note_duration m.topic_name key m.time_duration_ms g.durations_published)

step_consumed :
    (key : String) (m : Metric) (g : Gathered)
    → lookup key (step m g).durations_consumed
      ≡ overlay
          (lookup key g.durations_consumed)
          (if consumed_on key m then some (m.time_duration_ms ∷ []) else none)
unfolding gather_consumed gather_published
step_consumed key m g = ground (
  arith,
  lookup-note_duration (joined m.topic_name "." m.consumer_name) key m.time_duration_ms
      g.durations_consumed,
)

-- Both percentiles of a key are the duration of the first metric of that key, whatever the durations
-- of the later ones: for a topic among the publishers, and for a topic and a consumer among the
-- others.
pub insights_percentiles :
    (ms : List Metric) (key : String)
    → let i = insights ms in
      (lookup key i.p99_published ≡ first_duration (published_on key) ms)
      × (lookup key i.p75_published ≡ first_duration (published_on key) ms)
      × (lookup key i.p99_consumed ≡ first_duration (consumed_on key) ms)
      × (lookup key i.p75_consumed ≡ first_duration (consumed_on key) ms)
unfolding insights
insights_percentiles ms key =
    let g = gather ms no_durations in
    let (p99, p75) =
      lookup-percentiles-alone key g.durations_published (first_duration (published_on key) ms) (
        lookup-gather (λ g. g.durations_published) key (published_on key) (step_published key) ms
          no_durations
        ∙ (unfold lookup in refl)) in
    let (c99, c75) =
      lookup-percentiles-alone key g.durations_consumed (first_duration (consumed_on key) ms) (
        lookup-gather (λ g. g.durations_consumed) key (consumed_on key) (step_consumed key) ms
          no_durations
        ∙ (unfold lookup in refl)) in
    (p99, p75, c99, c75)
