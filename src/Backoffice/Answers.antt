-- ===== src/Backoffice/Answers.antt =====
-- The answers of the handlers that remove and read.
use gqueue.Common.{String, ◌≡◌, ◌↔◌, refl, Option, none, some, List, [], ◌∷◌, arith}
use gqueue.Http.{client_status}
use gqueue.Backoffice.{after_disabled, after_parse, remove_event}

module _ (parse : String → Option String) (disabled_event : String → Option String) where
  -- The path value is an id, and the store disabled it.
  abbrev pub Removed : Option String → Type 0
  Removed none = ⊥
  Removed (some id) = disabled_event id ≡ none

  -- The ids that were given to the store.
  abbrev pub given : Option String → List String
  given none = []
  given (some id) = id ∷ []

  after_disabled_204 :
      (id : String) (r : Option String)
      → (client_status (after_disabled parse disabled_event id r).calls ≡ 204) ↔ (r ≡ none)
  unfolding client_status
  after_disabled_204 id none = ((λ _. refl), (λ _. refl))
  after_disabled_204 id (some err) = ((λ h. ground arith), (λ h. cc))

  disabled-after_disabled :
      (id : String) (r : Option String)
      → (after_disabled parse disabled_event id r).disabled ≡ id ∷ []
  disabled-after_disabled id none = refl
  disabled-after_disabled id (some err) = refl

  after_parse_outcome :
      (o : Option String)
      → let r = after_parse parse disabled_event o in
        ((client_status r.calls ≡ 204) ↔ Removed o) × (r.disabled ≡ given o) × (r.upserts ≡ [])
  unfolding client_status
  after_parse_outcome none = (((λ h. ground arith), (λ h. elim h [ ])), refl, refl)
  after_parse_outcome (some id) = (
    after_disabled_204 id (disabled_event id),
    disabled-after_disabled id (disabled_event id),
    nothing_stored id (disabled_event id),
  )
    where
      nothing_stored :
          (id : String) (r : Option String)
          → (after_disabled parse disabled_event id r).upserts ≡ []
      nothing_stored id none = refl
      nothing_stored id (some err) = refl

  -- The removal of an event answers 204 exactly where the path value is an id and the store disabled
  -- it. The store is asked to disable that id and no other, and nothing where there is none.
  pub remove_event_outcome :
      (path_id : String)
      → let r = remove_event parse disabled_event path_id in
        ((client_status r.calls ≡ 204) ↔ Removed (parse path_id))
        × (r.disabled ≡ given (parse path_id))
        × (r.upserts ≡ [])
  unfolding remove_event
  remove_event_outcome path_id = after_parse_outcome (parse path_id)
