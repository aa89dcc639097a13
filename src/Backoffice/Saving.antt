-- ===== src/Backoffice/Saving.antt =====
-- Which events the administration API stores, and what it answers.
use gqueue.Common.{ℕ, String, ◌≡◌, ◌↔◌, refl, Option, none, some, [], ◌∷◌, All, arith}
use gqueue.Http.{client_status}
use gqueue.Event.{Event, Invalid, validate}
use gqueue.Event.Validate.{IsValidEvent, validate_iff}
use gqueue.Common.{Try, ok, error}
use gqueue.Backoffice.{
  EventDto, to_domain, Handled, after_upsert, after_validate, save_consumer_handle,
}

module _ (max_consumers : ℕ) (id service : String) (invalid_text : Invalid → String)
    (upsert : Event → Option String) (encode : EventDto → Try String) where
  -- The body decodes to a valid event, which the store takes.
  pub record IsSaved (r : Try EventDto) (handled : Handled) : Type 0 where
    pub payload : EventDto
    pub decoded : r ≡ ok payload
    pub valid : IsValidEvent max_consumers (to_domain id service payload)
    pub stored : upsert (to_domain id service payload) ≡ none
    pub upserted : handled.upserts ≡ to_domain id service payload ∷ []

  -- What the answer says, and what may reach the store.
  abbrev pub Saves : Try EventDto → Handled → Type 0
  Saves r handled =
      ((client_status handled.calls ≡ 200) ↔ IsSaved r handled)
      × ((client_status handled.calls ≡ 400) ↔ (handled.upserts ≡ []))
      × All (IsValidEvent max_consumers) handled.upserts

  after_upsert-Saves :
      (payload : EventDto) (u : Option String)
      → let event = to_domain id service payload in
        IsValidEvent max_consumers event
        → upsert event ≡ u
        → Saves
            (ok payload)
            (after_upsert max_consumers id service invalid_text upsert encode payload event u)
  unfolding client_status
  after_upsert-Saves payload none v e = (
    (
      (λ _. record { payload = payload; decoded = refl; valid = v; stored = e; upserted = refl }),
      (λ _. refl),
    ),
    ((λ h. ground arith), (λ h. cc)),
    (v, tt),
  )
  after_upsert-Saves payload (some err) v e = (
    ((λ h. ground arith), (λ s. cc (e, s.stored, s.decoded))),
    ((λ h. ground arith), (λ h. cc)),
    (v, tt),
  )

  after_validate-Saves :
      (payload : EventDto) (v : Option Invalid)
      → let event = to_domain id service payload in
        validate max_consumers event ≡ v
        → Saves
            (ok payload)
            (after_validate max_consumers id service invalid_text upsert encode payload event v)
  unfolding client_status
  after_validate-Saves payload none v =
      let event = to_domain id service payload in
      after_upsert-Saves payload (upsert event) ((validate_iff max_consumers event).0 v) refl
  after_validate-Saves payload (some why) v =
      (((λ h. ground arith), (λ s. cc (s.upserted))), ((λ _. refl), (λ _. refl)), tt)

  -- An event is stored only where it is valid. The answer is 200 exactly where the body decoded to
  -- a valid event, with the configured service and no state, and the store took it; the answer is 400
  -- exactly where nothing was given to the store.
  pub save_consumer_handle-Saves :
      (r : Try EventDto)
      → Saves r (save_consumer_handle max_consumers id service invalid_text upsert encode r)
  unfolding save_consumer_handle client_status
  save_consumer_handle-Saves (ok payload) =
      after_validate-Saves payload (validate max_consumers (to_domain id service payload)) refl
  save_consumer_handle-Saves (error err) =
      (((λ h. ground arith), (λ s. cc (s.decoded))), ((λ _. refl), (λ _. refl)), tt)
