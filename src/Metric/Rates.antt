-- ===== src/Metric/Rates.antt =====
-- The requests per minute of the insights.
use gqueue.Common.{
  ℕ, ◌+◌, ◌≤◌, String, Bool, false, ◌&&◌, ◌≡◌, ◌≢◌, refl, sym, ap, ◌∙◌, ◌==◌, string_Eq, Option,
  none, some, List, [], ◌∷◌, ◌++◌, if◌then◌else◌, Dict, lookup, lookup-insert, count_if, length,
  length-append, nat_eq_iff, arith, Bool-cases, inl, inr,
}
use gqueue.Metric.{
  Metric, Rpm, Gathered, increment_last, ends_in, add_to, add, joined, minute_of, gather_consumed,
  gather_published, gather, no_durations, insights,
}
use gqueue.Metric.Totals.{is_consumed, is_published, step, gather_counts}

abbrev pub sum : List ℕ → ℕ
sum [] = 0
sum (v ∷ vs) = v + sum vs

-- No minute stands twice in a row.
abbrev pub NoRepeat : List ℕ → Type 0
NoRepeat [] = Unit
NoRepeat (t ∷ []) = Unit
NoRepeat (t ∷ u ∷ ts) = (t ≢ u) × NoRepeat (u ∷ ts)

-- A series has a value for each of its minutes, and one at least.
pub record IsSeries (d : Rpm) : Type 0 where
  pub paired : length d.timeseries ≡ length d.values
  pub some_value : 1 ≤ length d.values
  pub distinct : NoRepeat d.timeseries

sum-increment_last : (vs : List ℕ) → 1 ≤ length vs → sum (increment_last vs) ≡ sum vs + 1
unfolding increment_last
sum-increment_last [] h = elim h [ ]
sum-increment_last (v ∷ []) h = omega arith
sum-increment_last (v ∷ w ∷ vs) h = omega (arith, sum-increment_last (w ∷ vs) (omega arith))

length-increment_last : (vs : List ℕ) → length (increment_last vs) ≡ length vs
unfolding increment_last
length-increment_last [] = refl
length-increment_last (v ∷ []) = refl
length-increment_last (v ∷ w ∷ vs) = omega (arith, length-increment_last (w ∷ vs))

sum-append : (vs ws : List ℕ) → sum (vs ++ ws) ≡ sum vs + sum ws
sum-append [] ws = omega arith
sum-append (v ∷ vs) ws = omega (arith, sum-append vs ws)

NoRepeat-append :
    (ts : List ℕ) (t : ℕ) → NoRepeat ts → ends_in t ts ≡ false → NoRepeat (ts ++ t ∷ [])
unfolding ends_in
NoRepeat-append [] t h e = tt
NoRepeat-append (u ∷ []) t h e = ((λ same. cc ((nat_eq_iff u t).1 same, e)), tt)
NoRepeat-append (u ∷ v ∷ us) t (differ, h) e = (differ, NoRepeat-append (v ∷ us) t h e)

-- The requests of an entry that may be missing.
abbrev pub entry_total : Option Rpm → ℕ
entry_total none = 0
entry_total (some d) = sum d.values

abbrev IsEntry : Option Rpm → Type 0
IsEntry none = Unit
IsEntry (some d) = IsSeries d

add_to-IsSeries : (minute : ℕ) (o : Option Rpm) → IsEntry o → IsSeries (add_to minute o)
unfolding add_to
add_to-IsSeries minute none h = record { paired = refl; some_value = omega arith; distinct = tt }
add_to-IsSeries minute (some d) h = elim (Bool-cases (ends_in minute d.timeseries)) [
  | inl same ↦ rw same (record {
    paired = h.paired ∙ sym (length-increment_last d.values);
    some_value = omega (arith, length-increment_last d.values, h.some_value);
    distinct = h.distinct;
  })
  | inr new ↦ rw new (record {
    paired = omega (
      arith,
      length-append d.timeseries (minute ∷ []),
      length-append d.values (1 ∷ []),
      h.paired,
    );
    some_value = omega (arith, length-append d.values (1 ∷ []));
    distinct = NoRepeat-append d.timeseries minute h.distinct new;
  })
]

sum-add_to :
    (minute : ℕ) (o : Option Rpm) → IsEntry o → sum (add_to minute o).values ≡ entry_total o + 1
unfolding add_to
sum-add_to minute none h = refl
sum-add_to minute (some d) h = elim (Bool-cases (ends_in minute d.timeseries)) [
  | inl same ↦ rw same (sum-increment_last d.values h.some_value)
  | inr new ↦ rw new (sum-append d.values (1 ∷ []))
]

-- The requests of a key.
abbrev pub requests : String → Dict String Rpm → ℕ
requests key rp = entry_total (lookup key rp)

-- Every entry is a series.
abbrev pub AllSeries : Dict String Rpm → Type 0
AllSeries rp = (key : String) → IsEntry (lookup key rp)

add-AllSeries :
    (key : String) (minute : ℕ) (rp : Dict String Rpm)
    → AllSeries rp
    → AllSeries (add key minute rp)
unfolding add
add-AllSeries key minute rp h other =
    let new = add_to minute (lookup key rp) in
    elim (Bool-cases (key == other)) [
      | inl same ↦
          rw (lookup-insert key other new rp, same) (add_to-IsSeries minute (lookup key rp) (h key))
      | inr differs ↦ rw (lookup-insert key other new rp, differs) (h other)
    ]

requests-add :
    (key other : String) (minute : ℕ) (rp : Dict String Rpm)
    → AllSeries rp
    → requests other (add key minute rp) ≡ requests other rp + (if key == other then 1 else 0)
unfolding add
requests-add key other minute rp h =
    let new = add_to minute (lookup key rp) in
    elim (Bool-cases (key == other)) [
      | inl same ↦
          rw (lookup-insert key other new rp, same)
            (sum-add_to minute (lookup key rp) (h key)
              ∙ ap (λ k. requests k rp + 1) ((string_Eq.same_iff key other).0 same))
      | inr differs ↦ rw (lookup-insert key other new rp, differs) (omega arith)
    ]

-- Both maps of rates have only series.
abbrev pub WellRated : Gathered → Type 0
WellRated g = AllSeries g.insights.rpm_publisher × AllSeries g.insights.rpm_consumer

abbrev pub consumer_key : Metric → String
consumer_key m = joined m.topic_name ":" m.consumer_name

step-WellRated : (m : Metric) (g : Gathered) → WellRated g → WellRated (step m g)
unfolding gather_consumed gather_published
step-WellRated m g (p, c) = elim (Bool-cases (m.consumer_name == "")) [
  | inl publisher ↦ rw publisher (add-AllSeries m.topic_name (minute_of m.time_ended) _ p, c)
  | inr consumer ↦ rw consumer (p, add-AllSeries (consumer_key m) (minute_of m.time_ended) _ c)
]

gather-WellRated : (ms : List Metric) (g : Gathered) → WellRated g → WellRated (gather ms g)
unfolding gather
gather-WellRated [] g h = h
gather-WellRated (m ∷ ms) g h = gather-WellRated ms (step m g) (step-WellRated m g h)

start-WellRated : WellRated no_durations
unfolding lookup
start-WellRated = ((λ key. tt), (λ key. tt))

step_published :
    (key : String) (m : Metric) (g : Gathered)
    → WellRated g
    → requests key (step m g).insights.rpm_publisher
      ≡ requests key g.insights.rpm_publisher
        + (if is_published m && (m.topic_name == key) then 1 else 0)
unfolding gather_consumed gather_published
step_published key m g (p, c) =
    ground
      (arith, requests-add m.topic_name key (minute_of m.time_ended) g.insights.rpm_publisher p)

step_consumed :
    (key : String) (m : Metric) (g : Gathered)
    → WellRated g
    → requests key (step m g).insights.rpm_consumer
      ≡ requests key g.insights.rpm_consumer
        + (if is_consumed m && (consumer_key m == key) then 1 else 0)
unfolding gather_consumed gather_published
step_consumed key m g (p, c) =
    ground
      (arith, requests-add (consumer_key m) key (minute_of m.time_ended) g.insights.rpm_consumer c)

rated_from_new :
    (f : Gathered → ℕ) (kind : Metric → Bool)
    → ((m : Metric) (g : Gathered) → WellRated g → f (step m g) ≡ f g + (if kind m then 1 else 0))
    → f no_durations ≡ 0
    → (ms : List Metric) → f (gather ms no_durations) ≡ count_if kind ms
rated_from_new f kind raises start ms = omega (
  arith,
  gather_counts WellRated f kind step-WellRated raises ms no_durations start-WellRated,
  start,
)

-- The values of a key's series add up to the metrics of that key, a topic for the publishers, and a
-- topic and a consumer for the others. Every series has one value for each of its minutes and no
-- minute twice in a row.
pub insights_rates :
    (ms : List Metric) (key : String)
    → let i = insights ms in
      (requests key i.rpm_publisher ≡ count_if (λ m. is_published m && (m.topic_name == key)) ms)
      × (requests key i.rpm_consumer ≡ count_if (λ m. is_consumed m && (consumer_key m == key)) ms)
      × AllSeries i.rpm_publisher
      × AllSeries i.rpm_consumer
unfolding insights
insights_rates ms key =
    let (p, c) = gather-WellRated ms no_durations start-WellRated in
    (
      rated_from_new (λ g. requests key g.insights.rpm_publisher)
          (λ m. is_published m && (m.topic_name == key)) (step_published key)
          (unfold lookup in refl) ms,
      rated_from_new (λ g. requests key g.insights.rpm_consumer)
          (λ m. is_consumed m && (consumer_key m == key)) (step_consumed key)
          (unfold lookup in refl) ms,
      p,
      c,
    )
