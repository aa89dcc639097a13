-- ===== src/CacheStore/Tests.antt =====
-- A queue with two archived tasks, of which one is removed, on the Redis in memory.
use gqueue.Common.{ℕ, String, Option, none, some, List, [], ◌∷◌, Try, ok, string_Eq, ◌≡◌, refl}
use gqueue.Event.{Event}
use gqueue.Archived.{get_all_msgs_by_queue}
use gqueue.CacheStore.{remove_msg_archived_task, set_archived_tasks, cache_manager}
use gqueue.CacheStore.Laws.{Memory, memory, memory-IsRedis}
use gqueue.CacheStore.Removal.{without, get_all_msgs_by_queue-removed}
use gqueue.Samples.{payment}

abbrev store : Memory
store = record {
  strings = [];
  sets = ("asynq:queues", ("default" ∷ [])) ∷ [];
  sorted_sets = ("asynq:{default}:archived", ("a" ∷ "b" ∷ [])) ∷ [];
  hashes =
      ("asynq:{default}:t:a", (("msg", 123 ∷ 125 ∷ []) ∷ []))
      ∷ ("asynq:{default}:t:b", (("msg", 123 ∷ 125 ∷ []) ∷ []))
      ∷ [];
}

abbrev first_byte : List ℕ → Option ℕ
first_byte [] = none
first_byte (b ∷ bs) = some b

removal_succeeds : (remove_msg_archived_task memory "default" "a" store).1 ≡ none
unfolding remove_msg_archived_task
removal_succeeds = refl

get_all_msgs_by_queue-removed_example :
    get_all_msgs_by_queue first_byte
      (cache_manager memory (remove_msg_archived_task memory "default" "a" store).0)
      "default"
    ≡ without "a" (get_all_msgs_by_queue first_byte (cache_manager memory store) "default")
get_all_msgs_by_queue-removed_example =
    get_all_msgs_by_queue-removed memory memory-IsRedis "default" "a" store first_byte
      removal_succeeds

abbrev marshal : List Event → Try String
marshal events = ok "[payment]"

abbrev unmarshal : String → Try (List Event)
unmarshal text = ok (payment ∷ [])

set_succeeds : (set_archived_tasks memory marshal 60 (payment ∷ []) store).1 ≡ none
unfolding set_archived_tasks
set_succeeds = refl
