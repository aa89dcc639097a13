-- ===== src/Publisher/Strategy.antt =====
-- pkg/pubadapter/base.go and classification_pub.go: the choice between the two publishers by the
-- type of the queue. A publisher is the error that it answers on a type of queue and the rest of its
-- arguments, `none` for nil.
use gqueue.Common.{String, ◌||◌, ◌==◌, string_Eq, Option, none, some, if◌then◌else◌, ◌≡◌, arith}
use gqueue.Topic.{append}
use gqueue.Event.{wq_type_known}

abbrev pub GenericPublisher {ℓ} : Type ℓ → Type ℓ
GenericPublisher Args = String → Args → Option String

pub record ClassificationResult {ℓ} (Args : Type ℓ) : Type ℓ where
  pub internal_publisher : GenericPublisher Args
  pub external_publisher : GenericPublisher Args

pub record PublisherStrategy {ℓ} (Args : Type ℓ) : Type ℓ where
  pub tasks_publisher : GenericPublisher Args
  pub pubsub_publisher : GenericPublisher Args

module _ {ℓ} {Args : Type ℓ} where
  -- ClassificationPublisher
  abbrev pub classification_publisher :
      GenericPublisher Args → GenericPublisher Args → ClassificationResult Args
  classification_publisher gcppubsub redis_async = record {
    internal_publisher = redis_async;
    external_publisher = gcppubsub;
  }

  -- NewStrategy
  abbrev pub new_strategy : ClassificationResult Args → PublisherStrategy Args
  new_strategy c = record {
    tasks_publisher = c.internal_publisher;
    pubsub_publisher = c.external_publisher;
  }

  -- PublisherStrategy.Publish
  unfoldable pub publish_by_type : PublisherStrategy Args → GenericPublisher Args
  publish_by_type s wq_type args =
      if wq_type == "low_throughput" || wq_type == "high_throughput"
      then s.tasks_publisher wq_type args
      else if wq_type == "low_latency"
      then s.pubsub_publisher wq_type args
      else some (append "invalid publish type: " wq_type)

  -- Where neither of the two publishers fails on a type of queue and its arguments, the publication
  -- succeeds if WQType.Validate accepts the type, and is an error that names the type if not.
  pub publish_by_type-Succeeds :
      (gcppubsub redis_async : GenericPublisher Args) (wq_type : String) (args : Args)
      → gcppubsub wq_type args ≡ none
      → redis_async wq_type args ≡ none
      → publish_by_type (new_strategy (classification_publisher gcppubsub redis_async)) wq_type args
        ≡ (if wq_type_known wq_type then none else some (append "invalid publish type: " wq_type))
  unfolding publish_by_type wq_type_known
  publish_by_type-Succeeds gcppubsub redis_async wq_type args sent queued = ground arith
