-- ===== src/PubsubApp/Retrying.antt =====
-- The webhook calls over the life of one request message, its retries and redeliveries included.
use gqueue.Common.{
  ℕ, zero, suc, String, Bool, true, false, ◌≡◌, ◌≢◌, refl, ap, ◌∙◌, ◌==◌, string_Eq, Option, none,
  some, List, [], ◌∷◌, ◌++◌, append-nil, append_assoc, sym, if◌then◌else◌, Bool-cases, inl, inr,
}
use gqueue.Delivery.{Message, Env, to_gpubsub_handler, delivered, dead_letter_topic}
use gqueue.Delivery.Bodies.{published_body}
use gqueue.Delivery.Life.{Delivery, is_refused, follow, redeliver, life}
use gqueue.Delivery.Retries.{first_published}
use gqueue.Publisher.{RequestPayload}
use gqueue.Webhook.{Notification, ConsumerEnv, request_handle, after_payload}
use gqueue.PubsubApp.{get_request_handle}

-- How often the broker delivers a message itself: once more after every delivery that was refused.
unfoldable pub times : ℕ → (ℕ → Env) → Message → ℕ
times zero envs msg = 0
times (suc f) envs msg =
    let again = times f envs msg in
    suc (if is_refused (to_gpubsub_handler (envs f) msg).actions then again else 0)

module _ {D : Type 0} (decode : String → Option (RequestPayload D)) (env : ConsumerEnv D) where
  -- The calls of one delivery.
  abbrev pub calls_of : String → List (Notification D)
  calls_of body = (get_request_handle (record env { payload = decode body })).notified

  abbrev pub webhook_calls : List Delivery → List (Notification D)
  webhook_calls [] = []
  webhook_calls (d ∷ rest) = calls_of d.message.body ++ webhook_calls rest

  -- `n` rounds of calls
  abbrev pub rounds : ℕ → List (Notification D) → List (Notification D)
  rounds zero calls = []
  rounds (suc n) calls = calls ++ rounds n calls

  -- encoding/json refuses a marshalled pubsub.Message as a RequestPayload: its key "Data" holds a
  -- text where the message has a body, and the field "data" is an object. The text is never empty.
  pub record RefusesMessages (marshal : Message → String) : Type 0 where
    pub refuses : (m : Message) → m.body ≢ "" → decode (marshal m) ≡ none
    pub full : (m : Message) → marshal m ≢ ""

  calls_of-unread : (body : String) → decode body ≡ none → calls_of body ≡ []
  unfolding get_request_handle request_handle after_payload
  calls_of-unread body h = ap (λ o. (get_request_handle (record env { payload = o })).notified) h

  webhook_calls-append :
      (xs ys : List Delivery) → webhook_calls (xs ++ ys) ≡ webhook_calls xs ++ webhook_calls ys
  webhook_calls-append [] ys = refl
  webhook_calls-append (x ∷ xs) ys =
      ap (λ l. calls_of x.message.body ++ l) (webhook_calls-append xs ys)
      ∙ sym (append_assoc (calls_of x.message.body) (webhook_calls xs) (webhook_calls ys))

  webhook_calls-follow :
      (next : Message → List Delivery) (deliver : String → Message → Message)
      (o : Option (String × Message))
      → ((t : String) (m : Message) → o ≡ some (t, m) → webhook_calls (next (deliver t m)) ≡ [])
      → webhook_calls (follow next deliver o) ≡ []
  webhook_calls-follow next deliver none h = refl
  webhook_calls-follow next deliver (some (t, m)) h = elim (Bool-cases (t == dead_letter_topic)) [
    | inl last ↦ rw last refl
    | inr again ↦ rw again (h t m refl)
  ]

  webhook_calls-redeliver :
      (next : Message → List Delivery) (msg : Message) (refused : Bool)
      → webhook_calls (next msg) ≡ []
      → webhook_calls (redeliver next msg refused) ≡ []
  webhook_calls-redeliver next msg true h = h
  webhook_calls-redeliver next msg false h = refl

  body-delivered :
      (marshal : Message → String) (id t : String) (m : Message)
      → (delivered marshal id t m).body ≡ marshal m
  unfolding delivered
  body-delivered marshal id t m = refl

module _ {D : Type 0} (decode : String → Option (RequestPayload D)) (env : ConsumerEnv D)
    (marshal : Message → String) (r : RefusesMessages decode env marshal) (envs : ℕ → Env)
    (ids : ℕ → String) where
  -- What a delivery publishes is not read as a request.
  published_unread :
      (id t : String) (e : Env) (msg m : Message)
      → msg.body ≢ ""
      → first_published e (to_gpubsub_handler e msg).actions ≡ some (t, m)
      → (decode (delivered marshal id t m).body ≡ none) × ((delivered marshal id t m).body ≢ "")
  unfolding delivered
  published_unread id t e msg m full o =
      (r.refuses m (λ empty. full (sym (published_body e msg t m o) ∙ empty)), r.full m)

  -- `next` calls no webhook for a message that is not read as a request.
  abbrev Silent : (Message → List Delivery) → Type 0
  Silent next =
      (msg : Message)
      → decode msg.body ≡ none
      → msg.body ≢ ""
      → webhook_calls decode env (next msg) ≡ []

  follow-Silent :
      (next : Message → List Delivery) (id : String) (e : Env) (msg : Message)
      → Silent next
      → msg.body ≢ ""
      → webhook_calls decode env (
          follow next (delivered marshal id) (first_published e (to_gpubsub_handler e msg).actions))
        ≡ []
  follow-Silent next id e msg silent full =
      webhook_calls-follow decode env next (delivered marshal id)
        (first_published e (to_gpubsub_handler e msg).actions)
        (λ t m o.
          let (unread, still_full) = published_unread id t e msg m full o in
          silent (delivered marshal id t m) unread still_full)

  life-Silent : (f : ℕ) → Silent (life f envs marshal ids)
  unfolding life
  life-Silent zero msg unread full = refl
  life-Silent (suc f) msg unread full =
      let next = life f envs marshal ids in
      let e = envs f in
      let actions = (to_gpubsub_handler e msg).actions in
      let again = redeliver next msg (is_refused actions) in
      let later = follow next (delivered marshal (ids f)) (first_published e actions) in
      cc (
        calls_of-unread decode env msg.body unread,
        webhook_calls-append decode env again later,
        webhook_calls-redeliver decode env next msg (is_refused actions)
            (life-Silent f msg unread full),
        follow-Silent next (ids f) e msg (life-Silent f) full,
      )

  rounds-redeliver :
      (next : Message → List Delivery) (msg : Message) (refused : Bool) (n : ℕ)
      → webhook_calls decode env (next msg) ≡ rounds decode env n (calls_of decode env msg.body)
      → webhook_calls decode env (redeliver next msg refused)
        ≡ rounds decode env (if refused then n else 0) (calls_of decode env msg.body)
  rounds-redeliver next msg true n h = h
  rounds-redeliver next msg false n h = refl

  -- Whatever the handler, the broker and the context answer at each delivery, all webhook calls over
  -- the life of a request message with a body are those of the deliveries of the message itself, the
  -- first one and one more after each that was refused: what a retry publishes is the marshalled
  -- message and not its body, and no webhook is called for it, however often it is delivered, where
  -- such a text is refused as a request.
  pub webhook_calls-life :
      (f : ℕ) (msg : Message)
      → msg.body ≢ ""
      → webhook_calls decode env (life f envs marshal ids msg)
        ≡ rounds decode env (times f envs msg) (calls_of decode env msg.body)
  unfolding life times
  webhook_calls-life zero msg full = refl
  webhook_calls-life (suc f) msg full =
      let next = life f envs marshal ids in
      let e = envs f in
      let actions = (to_gpubsub_handler e msg).actions in
      let again = redeliver next msg (is_refused actions) in
      let later = follow next (delivered marshal (ids f)) (first_published e actions) in
      ap (λ l. calls_of decode env msg.body ++ l)
        (webhook_calls-append decode env again later
          ∙ ap (λ l. webhook_calls decode env again ++ l)
              (follow-Silent next (ids f) e msg (life-Silent f) full)
          ∙ append-nil (webhook_calls decode env again)
          ∙ rounds-redeliver next msg (is_refused actions) (times f envs msg)
              (webhook_calls-life f msg full))
