-- ===== src/MemStore/Contents.antt =====
-- What the memory store answers after a refresh.
use gqueue.Common.{
  String, ◌≡◌, refl, Option, none, some, List, [], ◌∷◌, Dict, lookup, insert, lookup-insert,
  string_Eq, ◌==◌, if◌then◌else◌, arith,
}
use gqueue.Event.{Event}
use gqueue.MemStore.{MemStore, index_events, refresh, of_lookup, get_event}

-- The last of the events with a name.
abbrev pub last_named : String → List Event → Option Event
last_named name [] = none
last_named name (e ∷ es) = elim (last_named name es) [
  | some later ↦ some later
  | none ↦ if e.name == name then some e else none
]

abbrev pub or : Option Event → Option Event → Option Event
or (some e) other = some e
or none other = other

pub lookup-index_events :
    (name : String) (m : Dict String Event) (es : List Event)
    → lookup name (index_events m es) ≡ or (last_named name es) (lookup name m)
unfolding index_events
lookup-index_events name m [] = refl
lookup-index_events name m (e ∷ es) =
    ground (arith, lookup-index_events name (insert e.name e m) es, lookup-insert e.name name e m)

-- After a refresh a name is looked up among the new events alone, and the last event of that name is
-- found; where there is none the answer is EventNotFound. The retry topics stay.
pub get_event-refresh :
    (ms : MemStore) (es : List Event) (name : String)
    → (get_event (refresh ms es) name ≡ of_lookup (last_named name es))
      × ((refresh ms es).retry_topics ≡ ms.retry_topics)
unfolding get_event refresh lookup
get_event-refresh ms es name = (ground (arith, lookup-index_events name [] es), refl)
