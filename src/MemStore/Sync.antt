-- ===== src/MemStore/Sync.antt =====
-- The periodic refresh, over any sequence of answers of the persistent store.
use gqueue.Common.{◌≡◌, refl, Option, none, some, List, [], ◌∷◌, ◌∙◌}
use gqueue.Event.{Event}
use gqueue.MemStore.{
  Answer, found, not_found, failed, MemStore, refresh, load_in_mem_store, sync_mem_store,
}

-- The events of the last load that did not fail.
abbrev pub last_loaded : List (Answer (List Event)) → Option (List Event)
last_loaded [] = none
last_loaded (found es ∷ answers) = elim (last_loaded answers) [ some l ↦ some l | none ↦ some es ]
last_loaded (not_found ∷ answers) = elim (last_loaded answers) [ some l ↦ some l | none ↦ some [] ]
last_loaded (failed err ∷ answers) = last_loaded answers

abbrev pub refreshed : MemStore → Option (List Event) → MemStore
refreshed ms none = ms
refreshed ms (some es) = refresh ms es

refreshed-refresh :
    (ms : MemStore) (es : List Event) (o : Option (List Event))
    → refreshed (refresh ms es) o ≡ refreshed ms (elim o [ some l ↦ some l | none ↦ some es ])
unfolding refresh
refreshed-refresh ms es none = refl
refreshed-refresh ms es (some l) = refl

-- After any number of ticks the store holds the events of the last load that did not fail, and what
-- it held at first where every load failed.
pub sync_mem_store_lem :
    (ms : MemStore) (answers : List (Answer (List Event)))
    → sync_mem_store ms answers ≡ refreshed ms (last_loaded answers)
unfolding sync_mem_store load_in_mem_store
sync_mem_store_lem ms [] = refl
sync_mem_store_lem ms (found es ∷ answers) =
    sync_mem_store_lem (refresh ms es) answers ∙ refreshed-refresh ms es (last_loaded answers)
sync_mem_store_lem ms (not_found ∷ answers) =
    sync_mem_store_lem (refresh ms []) answers ∙ refreshed-refresh ms [] (last_loaded answers)
sync_mem_store_lem ms (failed err ∷ answers) = sync_mem_store_lem ms answers
