-- ===== src/Archived.antt =====
-- internal/app/taskapp/archived_task.go: the archived tasks of the queues. The cache (cache_store.go)
-- is what it answers; `M` stands for the JSON objects.
pub mod Listing
mod Tests
use gqueue.Common.{ℕ, String, string_Eq, Option, none, some, List, [], ◌∷◌, ◌++◌, Dict, insert}
use gqueue.MemStore.{Answer, found, not_found, failed}
use gqueue.Common.{Try, ok, error}
use gqueue.RawMsg.{msg}

-- The CacheManager's reads; a queue or a task is its name, a stored message its bytes.
pub record CacheManager : Type 0 where
  pub find_all_queues : Answer (List String)
  pub find_archived_tasks : String → Answer (List String)
  pub get_msg_archived_task : String → String → Try (List ℕ)

-- TaskArchivedData; its consumers are never filled in.
pub record TaskArchivedData (M : Type 0) : Type 0 where
  pub id : String
  pub queue : String
  pub msg : Option M
  pub tasks : List String

module _ {M : Type 0} (unmarshal : List ℕ → Option M) (cm : CacheManager) where
  -- A message that cannot be fetched is logged and skipped.
  abbrev pub add_task :
      String
      → List String
      → String
      → Try (List ℕ)
      → List (TaskArchivedData M)
      → List (TaskArchivedData M)
  add_task queue tasks task (error err) rest = rest
  add_task queue tasks task (ok raw) rest =
      record { id = task; queue = queue; msg = msg unmarshal raw; tasks = tasks } ∷ rest

  -- for _, task := range tasks
  unfoldable pub entries : String → List String → List String → List (TaskArchivedData M)
  entries queue tasks [] = []
  entries queue tasks (task ∷ rest) =
      add_task queue tasks task (cm.get_msg_archived_task queue task) (entries queue tasks rest)

  abbrev pub after_tasks : String → Answer (List String) → Try (List (TaskArchivedData M))
  after_tasks queue not_found = ok []
  after_tasks queue (failed err) = error err
  after_tasks queue (found tasks) = ok (entries queue tasks tasks)

  -- TaskManager.GetAllMsgsByQueue
  unfoldable pub get_all_msgs_by_queue : String → Try (List (TaskArchivedData M))
  unfolding entries
  get_all_msgs_by_queue queue = after_tasks queue (cm.find_archived_tasks queue)

  abbrev pub note_tasks :
      String → Answer (List String) → Dict String (List String) → Dict String (List String)
  note_tasks queue (found tasks) archived = insert queue tasks archived
  note_tasks queue not_found archived = archived
  note_tasks queue (failed err) archived = archived

  -- for _, queue := range queues: a queue that cannot be read is logged and skipped.
  unfoldable pub archived_of : List String → Dict String (List String) → Dict String (List String)
  archived_of [] archived = archived
  archived_of (queue ∷ queues) archived =
      archived_of queues (note_tasks queue (cm.find_archived_tasks queue) archived)

  -- for queue, tasks := range archived; the order of a map is not defined, and is that of the list
  -- here.
  unfoldable pub all_entries : Dict String (List String) → List (TaskArchivedData M)
  unfolding entries
  all_entries [] = []
  all_entries ((queue, tasks) ∷ archived) = entries queue tasks tasks ++ all_entries archived

  abbrev pub after_queues : Answer (List String) → Try (List (TaskArchivedData M))
  after_queues not_found = ok []
  after_queues (failed err) = error err
  after_queues (found queues) = ok (all_entries (archived_of queues []))

  -- TaskManager.GetMsgsArchived
  unfoldable pub get_msgs_archived : Try (List (TaskArchivedData M))
  unfolding all_entries archived_of
  get_msgs_archived = after_queues cm.find_all_queues
