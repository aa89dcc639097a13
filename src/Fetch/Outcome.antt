-- ===== src/Fetch/Outcome.antt =====
-- What one webhook call sends and reports.
use gqueue.Common.{
  ℕ, ◌≤◌, String, Bool, true, false, ◌≡◌, ◌↔◌, Option, none, some, List, [], ◌∷◌, refl, Dict, arith,
  if◌then◌else◌,
}
use gqueue.Event.{Consumer}
use gqueue.Event.Url.{get_url}
use gqueue.Fetch.{
  Kind, Request, Reply, status, broken, FetchError, FetchEnv, client_settings, check_status,
  after_send, after_marshal, fetch, notify, notify_settings,
}

-- The client answered with a status of at most 299.
abbrev pub Succeeded : Reply → Type 0
Succeeded (status code) = code ≤ 299
Succeeded (broken err) = ⊥

-- The statuses of the replies, as telemetry counts them.
abbrev pub statuses : Reply → List ℕ
statuses (status code) = code ∷ []
statuses (broken err) = []

check_status_iff : (code : ℕ) → (check_status code ≡ none) ↔ (code ≤ 299)
check_status_iff code = ground arith

after_send_outcome :
    (req : Request) (r : Reply)
    → let f = after_send req r in
      ((f.error ≡ none) ↔ Succeeded r) × (f.requests ≡ req ∷ []) × (f.counted ≡ statuses r)
after_send_outcome req (status code) = (check_status_iff code, refl, refl)
after_send_outcome req (broken err) = (((λ h. cc), (λ h. absurd h)), refl, refl)

module _ {D : Type 0} (env : FetchEnv D) where
  -- The request that a webhook call sends for a body.
  abbrev pub webhook_request : String → Dict String String → Consumer → Kind → Request
  webhook_request body headers consumer opt = record {
    url = get_url consumer;
    body = body;
    set_headers = ("Content-Type", "application/json") ∷ headers;
    settings = client_settings (notify_settings opt);
  }

  -- The content has a JSON text and the URL can be called.
  abbrev pub CanSend : Consumer → Option String → Type 0
  CanSend consumer none = ⊥
  CanSend consumer (some body) = env.url_ok (get_url consumer) ≡ true

  -- The reply to the request for this body is a success.
  abbrev pub IsTaken : Dict String String → Consumer → Kind → Option String → Type 0
  IsTaken headers consumer opt none = ⊥
  IsTaken headers consumer opt (some body) =
      (env.url_ok (get_url consumer) ≡ true)
      × Succeeded (env.send (webhook_request body headers consumer opt))

  after_marshal_sent :
      (headers : Dict String String) (consumer : Consumer) (opt : Kind) (body : String) (b : Bool)
      → let req = webhook_request body headers consumer opt in
        let f =
          (if b
            then after_send req (env.send req)
            else record { error = some FetchError.create_request; requests = []; counted = [] }) in
        ((f.error ≡ none) ↔ ((b ≡ true) × Succeeded (env.send req)))
        × ((b ≡ true) → (f.requests ≡ req ∷ []) × (f.counted ≡ statuses (env.send req)))
  after_marshal_sent headers consumer opt body true =
      let req = webhook_request body headers consumer opt in
      let (iff, sent, counted) = after_send_outcome req (env.send req) in
      (((λ h. (refl, iff.0 h)), (λ h. iff.1 h.1)), (λ _. (sent, counted)))
  after_marshal_sent headers consumer opt body false = (((λ h. cc), (λ h. cc (h.0))), (λ h. cc))

  after_marshal_iff :
      (headers : Dict String String) (consumer : Consumer) (opt : Kind) (m : Option String)
      → ((after_marshal env (get_url consumer) headers (notify_settings opt) m).error ≡ none)
        ↔ IsTaken headers consumer opt m
  after_marshal_iff headers consumer opt none = ((λ h. cc), (λ h. absurd h))
  after_marshal_iff headers consumer opt (some body) =
      (after_marshal_sent headers consumer opt body (env.url_ok (get_url consumer))).0

  -- A webhook call returns no error exactly when the content has a JSON text, the URL of the consumer
  -- can be called, and the reply to the one request for them has a status of at most 299.
  pub notify_succeeds_iff :
      (content : D) (headers : Dict String String) (consumer : Consumer) (opt : Kind)
      → ((notify env content headers consumer opt).error ≡ none)
        ↔ IsTaken headers consumer opt (env.marshal content)
  unfolding notify fetch
  notify_succeeds_iff content headers consumer opt =
      after_marshal_iff headers consumer opt (env.marshal content)
