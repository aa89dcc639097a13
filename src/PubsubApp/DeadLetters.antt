-- ===== src/PubsubApp/DeadLetters.antt =====
-- internal/app/pubsubapp/deadletter_handle.go, and what becomes of a dead letter when the store is
-- the memory store, as cmd/setup/pubsub/consumer.go sets it up.
use gqueue.Common.{
  ℕ, String, true, ◌≡◌, Option, none, some, List, [], ◌∷◌, ◌++◌, Dict, refl, ap, ◌∙◌,
}
use gqueue.Event.{Consumer, Event}
use gqueue.Fetch.{Kind, high_throughput}
use gqueue.MemStore.{Answer, found, not_found, failed, MemStore, get_all_schedulers}
use gqueue.Delivery.{Attributes, Message, nack, Env, to_gpubsub_handler, handle_result}
use gqueue.Delivery.Settlement.{settled}

-- The map that is sent for one consumer of an archived event; `D` stands for the message's bytes.
pub record Letter (D : Type 0) : Type 0 where
  pub event : String
  pub id : String
  pub content : D
  pub metadata : Option Attributes
  pub event_at : ℕ

-- The decoded pubsub.Message.
pub record DeadMessage (D : Type 0) : Type 0 where
  pub id : String
  pub content : D
  pub attributes : Option Attributes
  pub publish_time : ℕ

-- One call of `fetcher.Notify`, whose answer is not read.
pub record LetterCall (D : Type 0) : Type 0 where
  pub letter : Letter D
  pub headers : Option (Dict String String)
  pub consumer : Consumer
  pub opt : Kind

pub data DeadLetterError : Type 0 where
  get_payload : DeadLetterError
  get_schedulers : String → DeadLetterError

pub record Handled (D : Type 0) : Type 0 where
  pub error : Option DeadLetterError
  pub calls : List (LetterCall D)

module _ {D : Type 0} (p : DeadMessage D) where
  abbrev pub letter_call : Event → Consumer → LetterCall D
  letter_call event consumer = record {
    letter = record {
      event = event.name;
      id = p.id;
      content = p.content;
      metadata = p.attributes;
      event_at = p.publish_time;
    };
    headers = consumer.headers;
    consumer = record {
      service_name = consumer.service_name;
      base_url = consumer.base_url;
      path = consumer.path;
      headers = consumer.headers;
    };
    opt = high_throughput;
  }

  -- for _, consumer := range event.Consumers
  unfoldable pub call_consumers : Event → List Consumer → List (LetterCall D)
  call_consumers event [] = []
  call_consumers event (c ∷ cs) = letter_call event c ∷ call_consumers event cs

  -- for _, event := range events
  unfoldable pub call_events : List Event → List (LetterCall D)
  unfolding call_consumers
  call_events [] = []
  call_events (event ∷ events) = call_consumers event event.consumers ++ call_events events

  abbrev after_schedulers : Answer (List Event) → Handled D
  after_schedulers not_found = record { error = none; calls = [] }
  after_schedulers (failed err) = record { error = some (get_schedulers err); calls = [] }
  after_schedulers (found events) = record { error = none; calls = call_events events }

module _ {D : Type 0} where
  -- The handler of `NewDeadLatterQueue`, on the decoded message and on `store.GetAllSchedulers`.
  unfoldable pub dead_letter_handle :
      (String → Answer (List Event)) → Option (DeadMessage D) → Handled D
  dead_letter_handle schedulers none = record { error = some get_payload; calls = [] }
  dead_letter_handle schedulers (some p) = after_schedulers p (schedulers "archived")

-- The consumers of the events, in order, each with its event.
abbrev targets_of : Event → List Consumer → List (Event × Consumer) → List (Event × Consumer)
targets_of event [] rest = rest
targets_of event (c ∷ cs) rest = (event, c) ∷ targets_of event cs rest

abbrev pub targets : List Event → List (Event × Consumer)
targets [] = []
targets (e ∷ es) = targets_of e e.consumers (targets es)

-- The error as the adapter sees it.
abbrev pub error_text : (DeadLetterError → String) → Option DeadLetterError → Option String
error_text text none = none
error_text text (some e) = some (text e)

module _ {D : Type 0} (p : DeadMessage D) where
  -- The call for a consumer of an event: what it sends, and to whom.
  pub record IsLetter (target : Event × Consumer) (call : LetterCall D) : Type 0 where
    pub event : call.letter.event ≡ target.0.name
    pub id : call.letter.id ≡ p.id
    pub content : call.letter.content ≡ p.content
    pub metadata : call.letter.metadata ≡ p.attributes
    pub event_at : call.letter.event_at ≡ p.publish_time
    pub headers : call.headers ≡ target.1.headers
    pub consumer : call.consumer ≡ target.1

  -- The calls are those for the targets, one for each, in order.
  abbrev pub AreLetters : List (Event × Consumer) → List (LetterCall D) → Type 0
  AreLetters [] [] = Unit
  AreLetters [] (call ∷ calls) = ⊥
  AreLetters (target ∷ targets) [] = ⊥
  AreLetters (target ∷ targets) (call ∷ calls) = IsLetter target call × AreLetters targets calls

  call_consumers-AreLetters :
      (e : Event) (cs : List Consumer) (rest : List (Event × Consumer))
      (calls : List (LetterCall D))
      → AreLetters rest calls
      → AreLetters (targets_of e cs rest) (call_consumers p e cs ++ calls)
  unfolding call_consumers
  call_consumers-AreLetters e [] rest calls h = h
  call_consumers-AreLetters e (c ∷ cs) rest calls h = (
    record {
      event = refl;
      id = refl;
      content = refl;
      metadata = refl;
      event_at = refl;
      headers = refl;
      consumer = refl;
    },
    call_consumers-AreLetters e cs rest calls h,
  )

  call_events-AreLetters : (es : List Event) → AreLetters (targets es) (call_events p es)
  unfolding call_events
  call_events-AreLetters [] = tt
  call_events-AreLetters (e ∷ es) =
      call_consumers-AreLetters e e.consumers (targets es) (call_events p es)
        (call_events-AreLetters es)

  -- Where the store has archived events, the handler makes one call for each of their consumers, in
  -- order, and no other: it is made to that consumer with its own headers, and carries the event's
  -- name and the message's id, content, attributes and time. The handler returns no error.
  pub dead_letter_handle_calls :
      (schedulers : String → Answer (List Event)) (es : List Event)
      → schedulers "archived" ≡ found es
      → let r = dead_letter_handle schedulers (some p) in
        (r.error ≡ none) × AreLetters (targets es) r.calls
  unfolding dead_letter_handle
  dead_letter_handle_calls schedulers es h = rw h (refl, call_events-AreLetters es)

module _ {D : Type 0} where
  -- As the service sets it up, with the memory store, the dead letter consumer calls no one, and the
  -- broker is told to forget the message: whatever events the store holds, a message on the dead
  -- letter topic that can be read ends there.
  pub dead_letters_dropped :
      (decode : String → Option (DeadMessage D)) (text : DeadLetterError → String) (ms : MemStore)
      (env : Env) (msg : Message) (p : DeadMessage D)
      → let r = dead_letter_handle (get_all_schedulers ms) (decode msg.body) in
        env.handler msg.body ≡ error_text text r.error
        → decode msg.body ≡ some p
        → (r.calls ≡ []) × (settled (to_gpubsub_handler env msg).actions ≡ some true)
  unfolding dead_letter_handle get_all_schedulers to_gpubsub_handler handle_result
  dead_letters_dropped decode text ms env msg p h d =
      let silent = ap (λ o. (dead_letter_handle (get_all_schedulers ms) o).error) d in
      (
        ap (λ o. (dead_letter_handle (get_all_schedulers ms) o).calls) d,
        ap (λ o. settled ((handle_result env msg o msg.attributes).actions ++ nack ∷ []))
            (h ∙ ap (error_text text) silent),
      )
