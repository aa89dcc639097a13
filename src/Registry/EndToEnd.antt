-- ===== src/Registry/EndToEnd.antt =====
-- From the registration of an event to the publications of a client's request, through the table, the
-- refresh of the memory store and the HTTP publisher.
use gqueue.Common.{
  ℕ, suc, String, Bool, true, false, not, ◌==◌, string_Eq, Option, none, some, List, [], ◌∷◌, ◌≡◌,
  refl, sym, ◌∙◌, subst, ap, Bool-cases, inl, inr, arith,
}
use gqueue.Http.{client_status}
use gqueue.Event.{Consumer, Event}
use gqueue.MemStore.{Answer, found, not_found, get_event}
use gqueue.Postgres.{Row, Table, is_live, state_or_active}
use gqueue.Publisher.{
  InternalPayload, Publication, PublisherEnv, Published, validate_payload, publish_all,
  publish_valid, after_publish, after_validation, after_decoding, publisher,
}
use gqueue.Publisher.Serving.{fan_out}
use gqueue.Registry.{Service, Op, run, saved, published, replay}
use gqueue.Registry.Refinement.{Named, entry, run_refines}

-- A row that was removed
abbrev pub is_retired : Option Row → Bool
is_retired none = false
is_retired (some row) = not (is_live row)

-- A registration and a refresh that go well
abbrev pub registered : String → ℕ → Event → Service → Service
registered id now e s = run (Op.save none id now e ∷ Op.tick none ∷ []) s

seen-registered :
    (id : String) (now : ℕ) (e : Event) (s : Service)
    → Named s
    → get_event (registered id now e s).cache e.name
      ≡ published (some (saved id now e (entry s.table e.name)))
unfolding replay
seen-registered id now e s h =
    ap (λ v. v.seen e.name) (run_refines (Op.save none id now e ∷ Op.tick none ∷ []) s h).1
    ∙ rw ((string_Eq.same_iff e.name e.name).1 refl) refl

entry_named : (t : Table) (n : String) (row : Row) → entry t n ≡ some row → row.name ≡ n
entry_named [] n row h = absurd (ground (arith, h))
entry_named (r ∷ rows) n row h =
    ground (arith, h, string_Eq.same_iff r.name n, entry_named rows n row)

-- What the publishers find of an event
abbrev pub Found : Event → Answer Event → Type 0
Found e answer =
    (stored : Event) × (answer ≡ found stored)
    × (stored.name ≡ e.name)
    × (stored.option ≡ e.option)
    × (stored.consumers ≡ e.consumers)

published-saved :
    (id : String) (now : ℕ) (e : Event) (o : Option Row)
    → ((row : Row) → o ≡ some row → row.name ≡ e.name)
    → (state_or_active e.state == "archived") ≡ false
    → is_retired o ≡ false
    → Found e (published (some (saved id now e o)))
published-saved id now e none named active live = rw active (_, refl, refl, refl, refl)
published-saved id now e (some row) named active live = elim (Bool-cases (is_live row)) [
  | inl alive ↦ rw (alive, active) (_, refl, named row refl, refl, refl)
  | inr dead ↦ absurd (ground (arith, live, dead))
]

published_retired :
    (id : String) (now : ℕ) (e : Event) (o : Option Row)
    → is_retired o ≡ true
    → published (some (saved id now e o)) ≡ not_found
published_retired id now e none h = absurd (ground (arith, h))
published_retired id now e (some row) h = elim (Bool-cases (is_live row)) [
  | inl alive ↦ absurd (ground (arith, h, alive))
  | inr dead ↦ rw dead refl
]

module _ {D : Type 0} (env : PublisherEnv D)
    (make : InternalPayload D → Event → ℕ → Consumer → Publication D) (accepted : ℕ)
    (payload : InternalPayload D) where
  -- The body is decoded and valid, and the broker takes every publication.
  pub record IsTaken : Type 0 where
    pub decoded : env.decoded ≡ some payload
    pub valid : validate_payload payload ≡ none
    pub takes : (i : ℕ) (p : Publication D) → env.publish i p ≡ none

  publish_all-taken :
      ((i : ℕ) (p : Publication D) → env.publish i p ≡ none)
      → (event : Event) (i : ℕ) (cs : List Consumer)
      → publish_all env make accepted payload event i cs ≡ (fan_out (make payload event) i cs, none)
  unfolding publish_all
  publish_all-taken takes event i [] = refl
  publish_all-taken takes event i (c ∷ cs) =
      ap
        (λ r.
          after_publish (make payload event i c) r
            (publish_all env make accepted payload event (suc i) cs))
        (takes i (make payload event i c))
      ∙ ap (λ rest. after_publish (make payload event i c) none rest)
          (publish_all-taken takes event (suc i) cs)

  -- One publication for each consumer of the event, under the event's name and with its option
  abbrev pub Served : Event → Published D → Type 0
  Served e r =
      (stored : Event) × (stored.name ≡ e.name)
      × (stored.option ≡ e.option)
      × (client_status r.calls ≡ accepted)
      × (r.publications ≡ fan_out (make payload stored) 0 e.consumers)

  publisher-answer :
      IsTaken
      → (answer : Answer Event) → env.get_event payload.event_name ≡ answer
      → publisher env make accepted ≡ publish_valid env make accepted payload answer
  unfolding publisher
  publisher-answer taken answer known =
      ap (after_decoding env make accepted) taken.decoded
      ∙ ap (after_validation env make accepted payload) taken.valid
      ∙ ap (publish_valid env make accepted payload) known

  publish_valid-Served :
      (e : Event) (answer : Answer Event)
      → ((i : ℕ) (p : Publication D) → env.publish i p ≡ none)
      → Found e answer
      → Served e (publish_valid env make accepted payload answer)
  unfolding publish_valid client_status
  publish_valid-Served e answer takes (stored, is_found, n, o, c) = (
    stored,
    n,
    o,
    rw (is_found, publish_all-taken takes stored 0 stored.consumers) refl,
    rw (is_found, publish_all-taken takes stored 0 stored.consumers)
        (ap (fan_out (make payload stored) 0) c),
  )

-- After an event was registered and the memory store refreshed, both without an error, a request of
-- a client for that event, which is decoded and valid, is answered by the publisher that reads the memory store:
-- with the status of success and one publication for each consumer that was registered, in order,
-- where the event is not archived, no removed row has its name, and the broker takes every
-- publication; and with 404 and no publication where a removed row has its name.
pub registered-Served :
    {D : Type 0} (env : PublisherEnv D)
    → (make : InternalPayload D → Event → ℕ → Consumer → Publication D) (accepted : ℕ)
    → (payload : InternalPayload D) (id : String) (now : ℕ) (e : Event) (s : Service) → Named s
    → IsTaken env make accepted payload
    → payload.event_name ≡ e.name
    → env.get_event payload.event_name ≡ get_event (registered id now e s).cache payload.event_name
    → ((state_or_active e.state == "archived") ≡ false
        → is_retired (entry s.table e.name) ≡ false
        → Served env make accepted payload e (publisher env make accepted))
      × (is_retired (entry s.table e.name) ≡ true
          → (client_status (publisher env make accepted).calls ≡ 404)
            × ((publisher env make accepted).publications ≡ []))
unfolding publish_valid client_status
registered-Served env make accepted payload id now e s named taken asks reads =
    let o = entry s.table e.name in
    let known =
      reads
      ∙ ap (get_event (registered id now e s).cache) asks
      ∙ seen-registered id now e s named in
    let answered =
      publisher-answer env make accepted payload taken (published (some (saved id now e o)))
        known in
    (
      (λ active live. subst (Served env make accepted payload e) (sym answered) (
          publish_valid-Served env make accepted payload e (published (some (saved id now e o)))
            taken.takes (published-saved id now e o (entry_named s.table e.name) active live))),
      (λ retired.
          let gone =
            answered
            ∙ ap (publish_valid env make accepted payload) (published_retired id now e o retired) in
          (ap (λ r. client_status r.calls) gone, ap (λ r. r.publications) gone)),
    )
