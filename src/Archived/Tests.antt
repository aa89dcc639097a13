-- ===== src/Archived/Tests.antt =====
-- Two queues, of which one cannot be read.
use gqueue.Common.{
  ℕ, String, ◌≡◌, ◌==◌, string_Eq, refl, Option, none, List, [], ◌∷◌, map, lookup, if◌then◌else◌,
}
use gqueue.MemStore.{Answer, found, failed}
use gqueue.Common.{Try, ok, error}
use gqueue.Archived.{CacheManager, TaskArchivedData, archived_of, get_msgs_archived}
use gqueue.Archived.Listing.{entry_id, listed, noted, get_msgs_archived-listed}

abbrev queues : List String
queues = "default" ∷ "lost" ∷ []

abbrev tasks_of : String → Answer (List String)
tasks_of q = if q == "default" then found ("a" ∷ "b" ∷ []) else failed "timeout"

abbrev message_of : String → String → Try (List ℕ)
message_of q t = if t == "a" then ok [] else error "gone"

abbrev cache : CacheManager
cache = record {
  find_all_queues = found queues;
  find_archived_tasks = tasks_of;
  get_msg_archived_task = message_of;
}

abbrev no_object : List ℕ → Option ℕ
no_object raw = none

get_msgs_archived-listed_example :
    let archived = archived_of no_object cache queues [] in
    (output : List (TaskArchivedData ℕ)) × (get_msgs_archived no_object cache ≡ ok output)
    × (map (entry_id no_object cache) output ≡ listed no_object cache archived)
    × ((q : String) → lookup q archived ≡ noted no_object cache q queues none)
get_msgs_archived-listed_example = get_msgs_archived-listed no_object cache queues refl
