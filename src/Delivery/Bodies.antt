-- ===== src/Delivery/Bodies.antt =====
-- What a delivery publishes has the body of the message that was delivered.
use gqueue.Common.{
  String, true, false, ◌≡◌, ◌⊎◌, Bool, string_Eq, Option, none, some, List, [], ◌∷◌, ◌++◌, refl,
  if◌then◌else◌, Bool-cases, inl, inr, ℤ, geb, insert,
}
use gqueue.Strconv.{atoi}
use gqueue.Delivery.{
  Attributes, Message, Action, ack, nack, wait, publish, count_dlq, count_retry, Wake, elapsed,
  cancelled, Env, archived_msg, republish, retry_counted, retry_parsed, retryable, handle_result,
  str_retry_count, str_max_retry_count, to_gpubsub_handler, dead_letter_topic,
}
use gqueue.Delivery.Retries.{first_published}

-- Every publication among the actions has the body `b`.
abbrev KeepsBody : String → List Action → Type 0
KeepsBody b [] = Unit
KeepsBody b (publish t m ∷ rest) = (m.body ≡ b) × KeepsBody b rest
KeepsBody b (ack ∷ rest) = KeepsBody b rest
KeepsBody b (nack ∷ rest) = KeepsBody b rest
KeepsBody b (wait ∷ rest) = KeepsBody b rest
KeepsBody b (count_dlq t ∷ rest) = KeepsBody b rest
KeepsBody b (count_retry t ∷ rest) = KeepsBody b rest

append-KeepsBody :
    (b : String) (xs ys : List Action) → KeepsBody b xs → KeepsBody b ys → KeepsBody b (xs ++ ys)
append-KeepsBody b [] ys h k = k
append-KeepsBody b (publish t m ∷ xs) ys (e, h) k = (e, append-KeepsBody b xs ys h k)
append-KeepsBody b (ack ∷ xs) ys h k = append-KeepsBody b xs ys h k
append-KeepsBody b (nack ∷ xs) ys h k = append-KeepsBody b xs ys h k
append-KeepsBody b (wait ∷ xs) ys h k = append-KeepsBody b xs ys h k
append-KeepsBody b (count_dlq t ∷ xs) ys h k = append-KeepsBody b xs ys h k
append-KeepsBody b (count_retry t ∷ xs) ys h k = append-KeepsBody b xs ys h k

archived_msg-KeepsBody : (env : Env) (msg : Message) → KeepsBody msg.body (archived_msg env msg)
unfolding archived_msg
archived_msg-KeepsBody env msg = elim (Bool-cases (env.publishes dead_letter_topic msg)) [
  | inl h ↦ rw h (refl, tt)
  | inr h ↦ rw h (refl, tt)
]

pub wake_cases : (w : Wake) → (w ≡ elapsed) ⊎ (w ≡ cancelled)
wake_cases elapsed = inl refl
wake_cases cancelled = inr refl

republish-KeepsBody : (env : Env) (t : String) (m : Message) → KeepsBody m.body (republish env t m)
unfolding republish
republish-KeepsBody env t m = elim (wake_cases env.wakes) [
  | inr h ↦ rw h tt
  | inl h ↦ elim (Bool-cases env.done) [
    | inl d ↦ rw (h, d) tt
    | inr d ↦ elim (Bool-cases (env.publishes t m)) [
      | inl p ↦ rw (h, d, p) (refl, tt)
      | inr p ↦ rw (h, d, p) (refl, tt)
    ]
  ]
]

retry_counted-KeepsBody :
    (env : Env) (msg : Message) (attrs : Attributes) (c n : ℤ)
    → KeepsBody msg.body (retry_counted env msg attrs c n)
unfolding retry_counted
retry_counted-KeepsBody env msg attrs c n = elim (Bool-cases (geb c n)) [
  | inl over ↦ rw over (archived_msg-KeepsBody env (record msg { attributes = some attrs }))
  | inr under ↦ rw under (republish-KeepsBody env _ (record msg { attributes = some _ }))
]

retry_parsed-KeepsBody :
    (env : Env) (msg : Message) (attrs : Attributes) (c n : Option ℤ)
    → KeepsBody msg.body (retry_parsed env msg attrs c n).actions
unfolding retry_parsed
retry_parsed-KeepsBody env msg attrs none n = tt
retry_parsed-KeepsBody env msg attrs (some c) none = tt
retry_parsed-KeepsBody env msg attrs (some c) (some n) =
    append-KeepsBody msg.body (retry_counted env msg attrs c n) (ack ∷ [])
      (retry_counted-KeepsBody env msg attrs c n) tt

handle_result-KeepsBody :
    (env : Env) (msg : Message) (r : Option String) (attrs : Option Attributes)
    → KeepsBody msg.body (handle_result env msg r attrs).actions
unfolding handle_result retryable
handle_result-KeepsBody env msg none attrs = tt
handle_result-KeepsBody env msg (some err) none = tt
handle_result-KeepsBody env msg (some err) (some attrs) =
    retry_parsed-KeepsBody env msg (insert "msg" err attrs)
      (atoi (str_retry_count (insert "msg" err attrs)))
      (atoi (str_max_retry_count (insert "msg" err attrs)))

taken-body :
    (b t : String) (m : Message) (u : String) (k : Message) (later : Option (String × Message))
    (taken : Bool)
    → k.body ≡ b
    → (later ≡ some (t, m) → m.body ≡ b)
    → (if taken then some (u, k) else later) ≡ some (t, m)
    → m.body ≡ b
taken-body b t m u k later true same h e = cc (same, e)
taken-body b t m u k later false same h e = h e

first_published-body :
    (env : Env) (b t : String) (m : Message) (xs : List Action)
    → KeepsBody b xs
    → first_published env xs ≡ some (t, m)
    → m.body ≡ b
first_published-body env b t m [] h e = cc
first_published-body env b t m (publish u k ∷ xs) (same, h) e =
    taken-body b t m u k (first_published env xs) (env.publishes u k) same
      (first_published-body env b t m xs h) e
first_published-body env b t m (ack ∷ xs) h e = first_published-body env b t m xs h e
first_published-body env b t m (nack ∷ xs) h e = first_published-body env b t m xs h e
first_published-body env b t m (wait ∷ xs) h e = first_published-body env b t m xs h e
first_published-body env b t m (count_dlq s ∷ xs) h e = first_published-body env b t m xs h e
first_published-body env b t m (count_retry s ∷ xs) h e = first_published-body env b t m xs h e

pub published_body :
    (env : Env) (msg : Message) (t : String) (m : Message)
    → first_published env (to_gpubsub_handler env msg).actions ≡ some (t, m)
    → m.body ≡ msg.body
unfolding to_gpubsub_handler
published_body env msg t m =
    first_published-body env msg.body t m
      ((handle_result env msg (env.handler msg.body) msg.attributes).actions ++ nack ∷ [])
      (append-KeepsBody msg.body
        (handle_result env msg (env.handler msg.body) msg.attributes).actions (nack ∷ [])
        (handle_result-KeepsBody env msg (env.handler msg.body) msg.attributes) tt)
