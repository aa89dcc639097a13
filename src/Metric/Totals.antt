-- ===== src/Metric/Totals.antt =====
-- The totals and the segmentation of the insights.
use gqueue.Common.{
  ℕ, ◌+◌, String, Bool, not, ◌&&◌, ◌≡◌, refl, ◌==◌, string_Eq, List, [], ◌∷◌, if◌then◌else◌, Dict,
  lookup, lookup-insert, or_zero, count_if, arith,
}
use gqueue.Metric.{
  Metric, Gathered, count_key, gather_consumed, gather_published, gather, no_durations, insights,
}

-- A metric of a consumer, and one of a publisher.
abbrev pub is_consumed : Metric → Bool
is_consumed m = not (m.consumer_name == "")

abbrev pub is_published : Metric → Bool
is_published m = m.consumer_name == ""

-- One round of the loop.
abbrev pub step : Metric → Gathered → Gathered
step m g = if m.consumer_name == "" then gather_published m g else gather_consumed m g

-- A number that every round raises by one for the metrics of a kind counts them.
pub gather_counts :
    (Inv : Gathered → Type 0) (f : Gathered → ℕ) (kind : Metric → Bool)
    → ((m : Metric) (g : Gathered) → Inv g → Inv (step m g))
    → ((m : Metric) (g : Gathered) → Inv g → f (step m g) ≡ f g + (if kind m then 1 else 0))
    → (ms : List Metric) (g : Gathered) → Inv g
    → f (gather ms g) ≡ f g + count_if kind ms
unfolding gather count_if
gather_counts Inv f kind keeps raises [] g i = omega arith
gather_counts Inv f kind keeps raises (m ∷ ms) g i =
    omega (arith, gather_counts Inv f kind keeps raises ms (step m g) (keeps m g i), raises m g i)

abbrev Always : Gathered → Type 0
Always g = Unit

count_from_new :
    (f : Gathered → ℕ) (kind : Metric → Bool)
    → ((m : Metric) (g : Gathered) → f (step m g) ≡ f g + (if kind m then 1 else 0))
    → f no_durations ≡ 0
    → (ms : List Metric) → f (gather ms no_durations) ≡ count_if kind ms
count_from_new f kind raises start ms = omega (
  arith,
  gather_counts Always f kind (λ m g _. tt) (λ m g _. raises m g) ms no_durations tt,
  start,
)

-- The six totals are what their names say: how many metrics belong to a consumer or to a publisher,
-- and how many of these say success or failure; a percentage is of those totals.
pub insights_totals :
    (ms : List Metric)
    → let i = insights ms in
      (i.total_consumed ≡ count_if is_consumed ms)
      × (i.total_published ≡ count_if is_published ms)
      × (i.total_consumed_with_success ≡ count_if (λ m. is_consumed m && m.ack) ms)
      × (i.total_consumed_with_err ≡ count_if (λ m. is_consumed m && not m.ack) ms)
      × (i.total_published_with_success ≡ count_if (λ m. is_published m && m.ack) ms)
      × (i.total_published_with_err ≡ count_if (λ m. is_published m && not m.ack) ms)
      × (i.percentage_consumed_success ≡ (i.total_consumed_with_success, i.total_consumed))
      × (i.percentage_published_success ≡ (i.total_published_with_success, i.total_published))
unfolding insights gather_consumed gather_published
insights_totals ms = (
  count_from_new (λ g. g.insights.total_consumed) is_consumed (λ m g. ground arith) refl ms,
  count_from_new (λ g. g.insights.total_published) is_published (λ m g. ground arith) refl ms,
  count_from_new (λ g. g.insights.total_consumed_with_success) (λ m. is_consumed m && m.ack)
      (λ m g. ground arith) refl ms,
  count_from_new (λ g. g.insights.total_consumed_with_err) (λ m. is_consumed m && not m.ack)
      (λ m g. ground arith) refl ms,
  count_from_new (λ g. g.insights.total_published_with_success) (λ m. is_published m && m.ack)
      (λ m g. ground arith) refl ms,
  count_from_new (λ g. g.insights.total_published_with_err) (λ m. is_published m && not m.ack)
      (λ m g. ground arith) refl ms,
  refl,
  refl,
)

-- The number of a key, 0 where it is missing.
abbrev pub number : String → Dict String ℕ → ℕ
number key m = or_zero 0 (lookup key m)

number-count_key :
    (key other : String) (m : Dict String ℕ)
    → number other (count_key key m) ≡ number other m + (if key == other then 1 else 0)
unfolding count_key
number-count_key key other m =
    ground (
      arith,
      lookup-insert key other (or_zero 0 (lookup key m) + 1) m,
      string_Eq.same_iff key other,
    )

-- The segmentation counts the metrics of each consumer, and those of a publisher for each topic.
pub insights_segmentation :
    (ms : List Metric) (name : String)
    → (number name (insights ms).total_segmentation_consumed
        ≡ count_if (λ m. is_consumed m && (m.consumer_name == name)) ms)
      × (number name (insights ms).total_segmentation_published
          ≡ count_if (λ m. is_published m && (m.topic_name == name)) ms)
unfolding insights gather_consumed gather_published
insights_segmentation ms name = (
  count_from_new (λ g. number name g.insights.total_segmentation_consumed)
      (λ m. is_consumed m && (m.consumer_name == name))
      (λ m g.
        ground
          (arith, number-count_key m.consumer_name name g.insights.total_segmentation_consumed))
      (unfold lookup in refl) ms,
  count_from_new (λ g. number name g.insights.total_segmentation_published)
      (λ m. is_published m && (m.topic_name == name))
      (λ m g.
        ground (arith, number-count_key m.topic_name name g.insights.total_segmentation_published))
      (unfold lookup in refl) ms,
)
