-- ===== src/Registry/Tests.antt =====
-- An event that is registered, refreshed and removed.
use gqueue.Http.{client_status}
use gqueue.Publisher.{PublisherEnv, publisher, validate_payload}
use gqueue.PubsubApp.{publication}
use gqueue.Postgres.{state_or_active}
use gqueue.Registry.EndToEnd.{registered, is_retired, IsTaken, Served, registered-Served}
use gqueue.Registry.Refinement.{entry}
use gqueue.Samples.{publisher_env, payload}
use gqueue.Common.{
  String, true, false, ◌==◌, keep, insert, none, some, List, [], ◌∷◌, lookup, string_Eq, ◌≡◌, refl,
}
use gqueue.MemStore.{found, new_mem_store, get_event, refresh}
use gqueue.Postgres.{to_domain, new_row, get_all_events}
use gqueue.Registry.{Service, Op, run, replay, view}
use gqueue.Registry.Refinement.{Named, run_refines}
use gqueue.Samples.{payment}

abbrev started : Service
started = record { table = []; cache = new_mem_store }

abbrev ops : List Op
ops =
    Op.save none "1" 5 payment
    ∷ Op.tick none
    ∷ Op.remove none 6 "1"
    ∷ Op.tick (some "connection refused")
    ∷ []

-- The failed refresh leaves the removed event to the publishers.
stale : get_event (run ops started).cache payment.name ≡ found (to_domain (new_row "1" 5 payment))
unfolding run get_event lookup get_all_events refresh keep insert
stale = refl

run_refines_example : Named (run ops started) × (view (run ops started) ≡ replay ops (view started))
run_refines_example = run_refines ops started tt

-- A publisher that reads the memory store, with a broker that takes everything.
abbrev env : PublisherEnv String
env = record publisher_env {
  get_event = λ name. get_event (registered "1" 5 payment started).cache name;
  publish = λ i p. none;
}

taken : IsTaken env (publication env) 201 payload
unfolding validate_payload
taken = record { decoded = refl; valid = refl; takes = λ i p. refl }

registered-Served_example :
    ((state_or_active payment.state == "archived") ≡ false
      → is_retired (entry started.table payment.name) ≡ false
      → Served env (publication env) 201 payload payment (publisher env (publication env) 201))
    × (is_retired (entry started.table payment.name) ≡ true
        → (client_status (publisher env (publication env) 201).calls ≡ 404)
          × ((publisher env (publication env) 201).publications ≡ []))
registered-Served_example =
    registered-Served env (publication env) 201 payload "1" 5 payment started tt taken refl refl
