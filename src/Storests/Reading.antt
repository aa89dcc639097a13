-- ===== src/Storests/Reading.antt =====
-- What is read of the metrics of a day.
use gqueue.Common.{
  ℕ, String, ◌≡◌, refl, sym, ap, ◌∙◌, Option, none, some, List, [], ◌∷◌, ◌++◌, inl, inr, ◌⊎◌, subst,
}
use mathlib.Core.List.{Memᴰ}
use gqueue.Publisher.{PublisherMetric}
use gqueue.Webhook.{ConsumerMetric}
use gqueue.Metric.{Metric}
use gqueue.Common.{Try, ok, error}
use gqueue.Storests.{
  Redis, StoreError, group_key, group_insights, after_s_add, after_ttl, after_z_add, save,
  consumed_key, consumed, published, published_key, add_metric, decode, add_metrics, after_range,
  read_keys, after_members, get_all,
}
use gqueue.Storests.Laws.{IsRedis}

module _ {S : Type 0} (redis : Redis S) (laws : IsRedis redis) (day : ℕ) where
  -- SADD never fails.
  abbrev pub AddsSucceed : Type 0
  AddsSucceed = (k m : String) (s : S) → (redis.s_add k m s).1 ≡ none

  -- The key is in the group of the day and has the payload.
  abbrev pub Holds : String → String → S → Type 0
  Holds k payload s = Memᴰ k (laws.sets s (group_key day)) × Memᴰ payload (laws.sorted_sets s k)

  after_s_add_keeps :
      (j x : String) (a : S × Option String)
      → (Memᴰ x (laws.sets a.0 j) → Memᴰ x (laws.sets (after_s_add redis day a).0 j))
        × (Memᴰ x (laws.sorted_sets a.0 j)
            → Memᴰ x (laws.sorted_sets (after_s_add redis day a).0 j))
  after_s_add_keeps j x (s, some err) = ((λ h. h), (λ h. h))
  after_s_add_keeps j x (s, none) = laws.expire_keeps (group_key day) j x s

  group_insights-Holds :
      (k payload : String) (s : S)
      → AddsSucceed
      → Memᴰ payload (laws.sorted_sets s k)
      → Holds k payload (group_insights redis day k s).0
  unfolding group_insights
  group_insights-Holds k payload s adds h =
      let a = redis.s_add (group_key day) k s in
      (
        (after_s_add_keeps (group_key day) k a).0 (laws.s_added (group_key day) k s (adds _ k s)),
        (after_s_add_keeps k payload a).1 ((laws.s_add_keeps (group_key day) k k payload s).1 h),
      )

  after_ttl_state : (e : S × Option String) → (after_ttl redis day e).0 ≡ e.0
  after_ttl_state (s, some err) = refl
  after_ttl_state (s, none) = refl

  after_z_add-keeps :
      (k payload : String) (z : S × Option String)
      → (z.1 ≡ none → Memᴰ payload (laws.sorted_sets z.0 k))
      → (after_z_add redis day k z).1 ≡ none
      → Memᴰ payload (laws.sorted_sets (after_z_add redis day k z).0 k)
  after_z_add-keeps k payload (s, some err) h e = cc e
  after_z_add-keeps k payload (s, none) h e =
      subst (λ t. Memᴰ payload (laws.sorted_sets t k)) (sym (after_ttl_state (redis.expire k s)))
        ((laws.expire_keeps k k payload s).1 (h refl))

  save-Holds :
      (now : ℕ) (k payload : String) (s : S)
      → AddsSucceed
      → (save redis day now k (some payload) s).1 ≡ none
      → Holds k payload (save redis day now k (some payload) s).0
  unfolding save
  save-Holds now k payload s adds e =
      group_insights-Holds k payload (after_z_add redis day k (redis.z_add k now payload s)).0 adds
        (after_z_add-keeps k payload (redis.z_add k now payload s) (laws.z_added k payload now s) e)

module _ {S : Type 0} (redis : Redis S) (unmarshal : String → Option Metric) where
  Memᴰ-right : {x : Metric} (xs ys : List Metric) → Memᴰ x ys → Memᴰ x (xs ++ ys)
  Memᴰ-right [] ys m = m
  Memᴰ-right (z ∷ xs) ys m = Memᴰ.tail (Memᴰ-right xs ys m)

  Memᴰ-left : {x : Metric} (xs ys : List Metric) → Memᴰ x xs → Memᴰ x (xs ++ ys)
  Memᴰ-left [] ys m = elim m [ ]
  Memᴰ-left (z ∷ xs) ys (Memᴰ.head e) = Memᴰ.head e
  Memᴰ-left (z ∷ xs) ys (Memᴰ.tail m) = Memᴰ.tail (Memᴰ-left xs ys m)

  -- Beside an error nothing is asked.
  abbrev InOption : Metric → Option (List Metric) → Type 0
  InOption m none = Unit
  InOption m (some ms) = Memᴰ m ms

  abbrev pub InRead : Metric → StoreError ⊎ List Metric → Type 0
  InRead m (inl e) = Unit
  InRead m (inr ms) = Memᴰ m ms

  add_metric_head :
      (m : Metric) (o : Option Metric) (rest : Option (List Metric))
      → o ≡ some m
      → InOption m (add_metric redis unmarshal o rest)
  add_metric_head m none rest e = tt
  add_metric_head m (some n) none e = tt
  add_metric_head m (some n) (some ms) e = Memᴰ.head cc

  add_metric_tail :
      (m : Metric) (o : Option Metric) (rest : Option (List Metric))
      → InOption m rest
      → InOption m (add_metric redis unmarshal o rest)
  add_metric_tail m none rest h = tt
  add_metric_tail m (some n) none h = tt
  add_metric_tail m (some n) (some ms) h = Memᴰ.tail h

  decode-InOption :
      (m : Metric) (payload : String) (vs : List String)
      → unmarshal payload ≡ some m
      → Memᴰ payload vs
      → InOption m (decode redis unmarshal vs)
  unfolding decode
  decode-InOption m payload [] u h = elim h [ ]
  decode-InOption m payload (v ∷ vs) u (Memᴰ.head e) =
      add_metric_head m (unmarshal v) (decode redis unmarshal vs) (ap unmarshal (sym e) ∙ u)
  decode-InOption m payload (v ∷ vs) u (Memᴰ.tail h) =
      add_metric_tail m (unmarshal v) (decode redis unmarshal vs) (decode-InOption m payload vs u h)

  add_metrics_left :
      (m : Metric) (o : Option (List Metric)) (rest : StoreError ⊎ List Metric)
      → InOption m o
      → InRead m (add_metrics redis unmarshal o rest)
  add_metrics_left m none rest h = tt
  add_metrics_left m (some ms) (inl e) h = tt
  add_metrics_left m (some ms) (inr ns) h = Memᴰ-left ms ns h

  add_metrics_right :
      (m : Metric) (o : Option (List Metric)) (rest : StoreError ⊎ List Metric)
      → InRead m rest
      → InRead m (add_metrics redis unmarshal o rest)
  add_metrics_right m none rest h = tt
  add_metrics_right m (some ms) (inl e) h = tt
  add_metrics_right m (some ms) (inr ns) h = Memᴰ-right ms ns h

  after_range_left :
      (m : Metric) (payload : String) (r : Try (List String)) (rest : StoreError ⊎ List Metric)
      → unmarshal payload ≡ some m
      → ((vs : List String) → r ≡ ok vs → Memᴰ payload vs)
      → InRead m (after_range redis unmarshal r rest)
  after_range_left m payload (error err) rest u h = tt
  after_range_left m payload (ok vs) rest u h =
      add_metrics_left m (decode redis unmarshal vs) rest
        (decode-InOption m payload vs u (h vs refl))

  after_range_right :
      (m : Metric) (r : Try (List String)) (rest : StoreError ⊎ List Metric)
      → InRead m rest
      → InRead m (after_range redis unmarshal r rest)
  after_range_right m (error err) rest h = tt
  after_range_right m (ok vs) rest h = add_metrics_right m (decode redis unmarshal vs) rest h

  read_keys-InRead :
      (m : Metric) (k payload : String) (s : S) (ks : List String)
      → unmarshal payload ≡ some m
      → ((vs : List String) → redis.z_range k s ≡ ok vs → Memᴰ payload vs)
      → Memᴰ k ks
      → InRead m (read_keys redis unmarshal s ks)
  unfolding read_keys
  read_keys-InRead m k payload s [] u h i = elim i [ ]
  read_keys-InRead m k payload s (j ∷ ks) u h (Memᴰ.head e) =
      after_range_left m payload (redis.z_range j s) (read_keys redis unmarshal s ks) u
        (λ vs r. h vs (ap (λ i. redis.z_range i s) e ∙ r))
  read_keys-InRead m k payload s (j ∷ ks) u h (Memᴰ.tail i) =
      after_range_right m (redis.z_range j s) (read_keys redis unmarshal s ks)
        (read_keys-InRead m k payload s ks u h i)

  after_members-InRead :
      (laws : IsRedis redis) (day : ℕ) (m : Metric) (k payload : String) (s : S)
      (r : Try (List String))
      → unmarshal payload ≡ some m
      → Holds redis laws day k payload s
      → ((xs : List String) → r ≡ ok xs → xs ≡ laws.sets s (group_key day))
      → InRead m (after_members redis unmarshal s r)
  after_members-InRead laws day m k payload s (error err) u h r = tt
  after_members-InRead laws day m k payload s (ok ks) u (i, h) r =
      read_keys-InRead m k payload s ks u
        (λ vs e. subst (λ l. Memᴰ payload l) (sym (laws.range k s vs e)) h)
        (subst (λ l. Memᴰ k l) (sym (r ks refl)) i)

  get_all-InRead :
      (laws : IsRedis redis) (day : ℕ) (m : Metric) (k payload : String) (s : S)
      → unmarshal payload ≡ some m
      → Holds redis laws day k payload s
      → InRead m (get_all redis unmarshal day s)
  unfolding get_all
  get_all-InRead laws day m k payload s u h =
      after_members-InRead laws day m k payload s (redis.s_members (group_key day) s) u h
        (λ xs e. laws.members (group_key day) s xs e)

-- A metric of a consumer or of a publisher that was stored without an error is among the metrics that
-- a read of the same day answers, if it answers any, where the payload decodes to it, no key has
-- expired and SADD, whose error the store does not report, succeeds.
pub get_all-stored :
    {S : Type 0} (redis : Redis S) (laws : IsRedis redis) (day now : ℕ)
    (marshal_consumer : ConsumerMetric → Option String)
    (marshal_publisher : PublisherMetric → Option String) (unmarshal : String → Option Metric)
    (payload : String) (m : Metric) (s : S)
    → AddsSucceed redis laws day
    → unmarshal payload ≡ some m
    → ((input : ConsumerMetric)
        → marshal_consumer input ≡ some payload
        → (consumed redis day marshal_consumer now input s).1 ≡ none
        → InRead redis unmarshal m
            (get_all redis unmarshal day (consumed redis day marshal_consumer now input s).0))
      × ((input : PublisherMetric)
          → marshal_publisher input ≡ some payload
          → (published redis day marshal_publisher now input s).1 ≡ none
          → InRead redis unmarshal m
              (get_all redis unmarshal day (published redis day marshal_publisher now input s).0))
unfolding consumed published
get_all-stored redis laws day now mc mp unmarshal payload m s adds u = (
  (λ input e ok_. stored (consumed_key redis day input) (mc input) e ok_),
  (λ input e ok_. stored (published_key redis day input) (mp input) e ok_),
)
  where
    stored :
        (k : String) (o : Option String)
        → o ≡ some payload
        → (save redis day now k o s).1 ≡ none
        → InRead redis unmarshal m (get_all redis unmarshal day (save redis day now k o s).0)
    stored k o e w =
        get_all-InRead redis unmarshal laws day m k payload (save redis day now k o s).0 u (
          subst
            (λ p.
              (save redis day now k p s).1 ≡ none
              → Holds redis laws day k payload (save redis day now k p s).0)
            (sym e) (save-Holds redis laws day now k payload s adds) w)
