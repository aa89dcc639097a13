-- ===== src/CacheStore.antt =====
-- internal/app/taskapp/cache_store.go: the archived tasks that asynq keeps in Redis, and the archived
-- consumers. The Redis client is an interface, and the JSON codec is a parameter.
pub mod Laws
pub mod Removal
mod Tests
use gqueue.Common.{ℕ, String, Option, none, some, List, [], ◌∷◌, Try, ok, error}
use gqueue.Topic.{append}
use gqueue.Event.{Event}
use gqueue.MemStore.{Answer, found, not_found, failed}
use gqueue.Archived.{CacheManager}
use gqueue.Postgres.Filtered.{concat}

-- The commands of github.com/redis/go-redis that the cache sends; `not_found` is redis.Nil, a write
-- gives the state and its error, `none` for nil. The values of the hashes are bytes.
pub record Commands (S : Type 0) : Type 0 where
  pub get : String → S → Answer String
  pub set : String → String → ℕ → S → S × Option String
  pub s_members : String → S → Answer (List String)
  -- ZRange from 0 to -1
  pub z_range : String → S → Answer (List String)
  pub z_rem : String → List String → S → S × Option String
  pub h_get : String → String → S → Answer (List ℕ)
  pub del : String → S → S × Option String

abbrev pub archived_key : String
archived_key = "gqueue:consumers:schedule:archived"

abbrev pub queues_key : String
queues_key = "asynq:queues"

-- asynq:{queue}:archived
unfoldable pub zrange_key : String → String
unfolding append
zrange_key queue = append "asynq:{" (append queue "}:archived")

-- asynq:{queue}:t:task
unfoldable pub archived_task_key : String → String → String
unfolding append
archived_task_key queue task = append "asynq:{" (append queue (append "}:t:" task))

-- The text of redis.Nil
abbrev pub redis_nil : String
redis_nil = "redis: nil"

-- fmt.Errorf on a command's error
abbrev pub wrapped : String → Option String → Option String
wrapped what none = none
wrapped what (some err) = some (append what err)

module _ {S : Type 0} (redis : Commands S) where
  module _ (unmarshal : String → Try (List Event)) where
    abbrev pub after_unmarshal : Try (List Event) → Answer (List Event)
    after_unmarshal (ok events) = found events
    after_unmarshal (error err) = failed (append "failed to unmarshal consumers: " err)

    abbrev pub after_get : Answer String → Answer (List Event)
    after_get not_found = not_found
    after_get (failed err) = failed (append "failed to get consumers: " err)
    after_get (found result) = after_unmarshal (unmarshal result)

    -- Cache.FindAllConsumers; `not_found` is ErrorNotFound.
    unfoldable pub find_all_consumers : S → Answer (List Event)
    find_all_consumers s = after_get (redis.get archived_key s)

  abbrev pub after_s_members : Answer (List String) → Answer (List String)
  after_s_members not_found = not_found
  after_s_members (failed err) = failed (append "failed to get queues: " err)
  after_s_members (found queues) = found queues

  -- Cache.FindAllQueues
  unfoldable pub find_all_queues : S → Answer (List String)
  find_all_queues s = after_s_members (redis.s_members queues_key s)

  abbrev pub after_z_range : Answer (List String) → Answer (List String)
  after_z_range (found tasks) = found tasks
  after_z_range (failed err) = failed (append "failed to fetch archived tasks: " err)
  after_z_range not_found = failed (append "failed to fetch archived tasks: " redis_nil)

  -- Cache.FindArchivedTasks: no error is ErrorNotFound.
  unfoldable pub find_archived_tasks : String → S → Answer (List String)
  unfolding zrange_key
  find_archived_tasks queue s = after_z_range (redis.z_range (zrange_key queue) s)

  abbrev pub failing : String → S × Option String → S × Option String
  failing what (s, err) = (s, wrapped what err)

  -- Cache.RemoveItemsArchivedTasks
  unfoldable pub remove_items_archived_tasks : String → List String → S → S × Option String
  unfolding zrange_key concat
  remove_items_archived_tasks queue tasks s =
      failing (concat ("failed to remove archived tasks from queue " ∷ queue ∷ ": " ∷ []))
        (redis.z_rem (zrange_key queue) tasks s)

  abbrev pub after_h_get : Answer (List ℕ) → Try (List ℕ)
  after_h_get (found raw) = ok raw
  after_h_get not_found = error (append "failed to fetch DLQ task: " redis_nil)
  after_h_get (failed err) = error (append "failed to fetch DLQ task: " err)

  -- Cache.GetMsgArchivedTask
  unfoldable pub get_msg_archived_task : String → String → S → Try (List ℕ)
  unfolding archived_task_key
  get_msg_archived_task queue task s =
      after_h_get (redis.h_get (archived_task_key queue task) "msg" s)

  -- Cache.Remove
  unfoldable pub remove : String → S → S × Option String
  unfolding concat
  remove key s = failing (concat ("failed to remove key " ∷ key ∷ ": " ∷ [])) (redis.del key s)

  -- Cache.RemoveMsgArchivedTask
  unfoldable pub remove_msg_archived_task : String → String → S → S × Option String
  unfolding archived_task_key remove
  remove_msg_archived_task queue task s =
      failing
        (concat ("failed to remove archived task " ∷ task ∷ " from queue " ∷ queue ∷ ": " ∷ []))
        (remove (archived_task_key queue task) s)

  abbrev pub after_marshal : ℕ → Try String → S → S × Option String
  after_marshal ttl (error err) s = (s, some (append "failed to marshal events: " err))
  after_marshal ttl (ok b) s =
      failing "failed to set archived tasks: " (redis.set archived_key b ttl s)

  -- Cache.SetArchivedTasks, with the configured time to live
  unfoldable pub set_archived_tasks :
      (List Event → Try String) → ℕ → List Event → S → S × Option String
  set_archived_tasks marshal ttl events s = after_marshal ttl (marshal events) s

  -- The cache as the CacheManager of the listings
  abbrev pub cache_manager : S → CacheManager
  cache_manager s = record {
    find_all_queues = find_all_queues s;
    find_archived_tasks = λ queue. find_archived_tasks queue s;
    get_msg_archived_task = λ queue task. get_msg_archived_task queue task s;
  }
