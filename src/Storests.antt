-- ===== src/Storests.antt =====
-- internal/storests: the metrics of a day in Redis. The Redis client is an interface, and the JSON
-- codec, the clock and the day of the month in UTC are parameters.
pub mod Laws
pub mod Reading
mod Tests
use gqueue.Common.{
  ℕ, String, Bool, Option, none, some, List, [], ◌∷◌, ◌++◌, if◌then◌else◌, pos, ◌⊎◌, inl, inr,
}
use gqueue.Strconv.{itoa}
use gqueue.Topic.{append}
use gqueue.Publisher.{PublisherMetric}
use gqueue.Webhook.{ConsumerMetric}
use gqueue.Metric.{Metric}
use gqueue.Common.{Try, ok, error}

-- The commands of github.com/redis/go-redis that the store sends: a write gives the state and its
-- error, `none` for nil.
pub record Redis (S : Type 0) : Type 0 where
  pub s_add : String → String → S → S × Option String
  pub expire : String → S → S × Option String
  pub z_add : String → ℕ → String → S → S × Option String
  pub s_members : String → S → Try (List String)
  -- ZRange from 0 to -1
  pub z_range : String → S → Try (List String)

pub data StoreError : Type 0 where
  marshal_payload : StoreError
  save_event : String → StoreError
  set_ttl : String → StoreError
  get_keys : String → StoreError
  get_values : String → StoreError
  unmarshal_insights : StoreError

-- strings.Join(v, ":")
unfoldable pub join_colon : List String → String
join_colon [] = ""
join_colon (x ∷ []) = x
join_colon (x ∷ y ∷ xs) = append x (append ":" (join_colon (y ∷ xs)))

-- Store.key on the day of the month
unfoldable pub key : ℕ → String → List String → String
unfolding join_colon
key day type_event values =
    join_colon ("gqueue:insights" ∷ type_event ∷ (values ++ itoa (pos day) ∷ []))

abbrev pub group_key : ℕ → String
group_key day = key day "group-insights" []

abbrev pub prefix_of : Bool → String
prefix_of ack = if ack then "success" else "failure"

module _ {S : Type 0} (redis : Redis S) (day : ℕ) where
  abbrev pub after_s_add : S × Option String → S × Option String
  after_s_add (s, some err) = (s, some err)
  after_s_add (s, none) = redis.expire (group_key day) s

  -- Store.groupInsights
  unfoldable pub group_insights : String → S → S × Option String
  group_insights k s = after_s_add (redis.s_add (group_key day) k s)

  -- The deferred call, whose error is not read.
  abbrev pub finish : String → S × Option StoreError → S × Option StoreError
  finish k (s, err) = ((group_insights k s).0, err)

  abbrev pub after_ttl : S × Option String → S × Option StoreError
  after_ttl (s, some err) = (s, some (set_ttl err))
  after_ttl (s, none) = (s, none)

  abbrev pub after_z_add : String → S × Option String → S × Option StoreError
  after_z_add k (s, some err) = (s, some (save_event err))
  after_z_add k (s, none) = after_ttl (redis.expire k s)

  -- The body that Consumed and Published share, on the key and on the marshalled input.
  unfoldable pub save : ℕ → String → Option String → S → S × Option StoreError
  unfolding group_insights
  save now k none s = finish k (s, some marshal_payload)
  save now k (some payload) s = finish k (after_z_add k (redis.z_add k now payload s))

  abbrev pub consumed_key : ConsumerMetric → String
  consumed_key input =
      key day "event-consumed" (prefix_of input.ack ∷ input.topic_name ∷ input.consumer_name ∷ [])

  abbrev pub published_key : PublisherMetric → String
  published_key input = key day "event-published" (prefix_of input.ack ∷ input.topic_name ∷ [])

  -- Store.Consumed
  unfoldable pub consumed :
      (ConsumerMetric → Option String) → ℕ → ConsumerMetric → S → S × Option StoreError
  unfolding save key
  consumed marshal now input s = save now (consumed_key input) (marshal input) s

  -- Store.Published
  unfoldable pub published :
      (PublisherMetric → Option String) → ℕ → PublisherMetric → S → S × Option StoreError
  unfolding save key
  published marshal now input s = save now (published_key input) (marshal input) s

-- Reading; beside an error, what was read so far is not kept.
module _ {S : Type 0} (redis : Redis S) (unmarshal : String → Option Metric) where
  abbrev pub add_metric : Option Metric → Option (List Metric) → Option (List Metric)
  add_metric (some m) (some ms) = some (m ∷ ms)
  add_metric (some m) none = none
  add_metric none rest = none

  -- The inner loop; `none` is an error of json.Unmarshal.
  unfoldable pub decode : List String → Option (List Metric)
  decode [] = some []
  decode (v ∷ vs) = add_metric (unmarshal v) (decode vs)

  abbrev pub add_metrics :
      Option (List Metric) → StoreError ⊎ List Metric → StoreError ⊎ List Metric
  add_metrics none rest = inl unmarshal_insights
  add_metrics (some ms) (inl e) = inl e
  add_metrics (some ms) (inr rest) = inr (ms ++ rest)

  abbrev pub after_range : Try (List String) → StoreError ⊎ List Metric → StoreError ⊎ List Metric
  after_range (error err) rest = inl (get_values err)
  after_range (ok vs) rest = add_metrics (decode vs) rest

  -- The outer loop.
  unfoldable pub read_keys : S → List String → StoreError ⊎ List Metric
  unfolding decode
  read_keys s [] = inr []
  read_keys s (k ∷ ks) = after_range (redis.z_range k s) (read_keys s ks)

  abbrev pub after_members : S → Try (List String) → StoreError ⊎ List Metric
  after_members s (error err) = inl (get_keys err)
  after_members s (ok ks) = read_keys s ks

  -- Store.GetAll
  unfoldable pub get_all : ℕ → S → StoreError ⊎ List Metric
  unfolding read_keys key
  get_all day s = after_members s (redis.s_members (group_key day) s)
