-- ===== src/MemStore.antt =====
-- internal/interstore/mem_store.go: the events that the publishers look up, and their refresh from
-- the persistent store (cmd/setup/memstore/task_sync.go).
pub mod Contents
pub mod Sync
mod Tests
use gqueue.Common.{String, Bool, Option, none, some, List, [], ◌∷◌, Dict, lookup, insert, string_Eq}
use gqueue.Event.{Event}

-- The answer of a store: a value, `domain.EventNotFound` (perhaps wrapped), or another error.
pub data Answer {ℓ} (A : Type ℓ) : Type ℓ where
  found : A → Answer A
  not_found : Answer A
  failed : String → Answer A

pub record MemStore : Type 0 where
  pub topic_events : Dict String Event
  pub retry_topics : Dict String Event

-- NewMemStore
abbrev pub new_mem_store : MemStore
new_mem_store = record { topic_events = []; retry_topics = [] }

-- for _, event := range events { m[event.Name] = event }
unfoldable pub index_events : Dict String Event → List Event → Dict String Event
index_events m [] = m
index_events m (event ∷ events) = index_events (insert event.name event m) events

-- Refresh
unfoldable pub refresh : MemStore → List Event → MemStore
unfolding index_events
refresh ms events = record ms { topic_events = index_events [] events }

-- RefreshRetryTopics
unfoldable pub refresh_retry_topics : MemStore → List Event → MemStore
unfolding index_events
refresh_retry_topics ms events = record ms { retry_topics = index_events [] events }

-- LoadInMemStore on the answer of `GetAllEvents`, which is the empty list beside EventNotFound. The
-- second part is the error, `none` for nil.
unfoldable pub load_in_mem_store : MemStore → Answer (List Event) → MemStore × Option String
load_in_mem_store ms (found events) = (refresh ms events, none)
load_in_mem_store ms not_found = (refresh ms [], none)
load_in_mem_store ms (failed err) = (ms, some err)

abbrev pub of_lookup : Option Event → Answer Event
of_lookup none = not_found
of_lookup (some event) = found event

-- GetEvent
unfoldable pub get_event : MemStore → String → Answer Event
get_event ms event_name = of_lookup (lookup event_name ms.topic_events)

-- GetAllSchedulers, deprecated: it has no events for any state.
unfoldable pub get_all_schedulers : MemStore → String → Answer (List Event)
get_all_schedulers ms state = not_found

-- SyncMemStore over the answers of the persistent store, one for each tick until the context ends.
-- A failed load is logged and skipped.
unfoldable pub sync_mem_store : MemStore → List (Answer (List Event)) → MemStore
sync_mem_store ms [] = ms
sync_mem_store ms (answer ∷ answers) = sync_mem_store (load_in_mem_store ms answer).0 answers
