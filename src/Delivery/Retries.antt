-- ===== src/Delivery/Retries.antt =====
-- The life of a message whose handler keeps failing: how often it comes back, and where it ends.
use gqueue.Common.{
  ℕ, zero, suc, ◌+◌, ◌≤◌, ◌<◌, String, true, false, ◌≡◌, Option, none, some, List, [], ◌∷◌, ◌++◌,
  refl, sym, ap, ◌∙◌, pos, geb, insert, lookup, lookup-insert, string_Eq, ◌==◌, arith,
  if◌then◌else◌, or_zero, Bool-cases, inl, inr, append_assoc, subst,
}
use gqueue.Strconv.{itoa, max_int}
use gqueue.Strconv.RoundTrip.{atoi-itoa}
use gqueue.Delivery.{
  Attributes, Message, Action, ack, nack, publish, Env, Run, archived_msg, republish, retry_counted,
  retry_parsed, retryable, handle_result, str_retry_count, to_gpubsub_handler, dead_letter_topic,
  delivered, published_attributes,
}
use gqueue.Delivery.Settlement.{Lives}

-- The first publication that goes well.
abbrev pub first_published : Env → List Action → Option (String × Message)
first_published env [] = none
first_published env (publish t m ∷ rest) =
    let later = first_published env rest in if env.publishes t m then some (t, m) else later
first_published env (_ ∷ rest) = first_published env rest

-- The next round of `attempts`.
abbrev pub follow :
    (Message → List String) → (String → Message → Message) → Option (String × Message) → List String
follow next deliver none = []
follow next deliver (some (t, m)) =
    let later = next (deliver t m) in t ∷ (if t == dead_letter_topic then [] else later)

-- The topics to which a message is published, delivery after delivery, until it is on the dead
-- letter topic. The broker delivers each publication and chooses its id.
unfoldable pub attempts : ℕ → Env → (Message → String) → (ℕ → String) → Message → List String
attempts zero env marshal ids msg = []
attempts (suc f) env marshal ids msg =
    follow (attempts f env marshal ids) (delivered marshal (ids f))
      (first_published env (to_gpubsub_handler env msg).actions)

-- The handler fails on every body, the broker takes every publication, and the context lives.
pub record AlwaysFails (env : Env) : Type 0 where
  pub error : String → String
  pub fails : (body : String) → env.handler body ≡ some (error body)
  pub publishes : (t : String) (m : Message) → env.publishes t m ≡ true
  pub lives : Lives env

-- The attributes of a message on topic `t` that has been retried `c` times, of `n`.
pub record Counted (t : String) (c n : ℕ) (attrs : Attributes) : Type 0 where
  pub topic : lookup "topic" attrs ≡ some t
  pub limit : lookup "max_retries" attrs ≡ some (itoa (pos n))
  pub count : str_retry_count attrs ≡ itoa (pos c)

abbrev pub replicate : ℕ → String → List String
replicate zero t = []
replicate (suc k) t = t ∷ replicate k t

pub Counted-msg :
    (t e : String) (c n : ℕ) (attrs : Attributes)
    → Counted t c n attrs
    → Counted t c n (insert "msg" e attrs)
Counted-msg t e c n attrs h = record {
  topic = lookup-insert "msg" "topic" e attrs ∙ h.topic;
  limit = lookup-insert "msg" "max_retries" e attrs ∙ h.limit;
  count = ap (or_zero "0") (lookup-insert "msg" "retry_count" e attrs) ∙ h.count;
}

pub Counted-retry :
    (t : String) (c c' n : ℕ) (attrs : Attributes)
    → Counted t c n attrs
    → Counted t c' n (insert "retry_count" (itoa (pos c')) attrs)
Counted-retry t c c' n attrs h = record {
  topic = lookup-insert "retry_count" "topic" (itoa (pos c')) attrs ∙ h.topic;
  limit = lookup-insert "retry_count" "max_retries" (itoa (pos c')) attrs ∙ h.limit;
  count = ap (or_zero "0") (lookup-insert "retry_count" "retry_count" (itoa (pos c')) attrs);
}

-- A map to which something was written is not empty, so `PubSubGoogle.Publish` keeps it.
pub published_attributes-insert :
    (t k v : String) (attrs : Attributes)
    → published_attributes t (insert k v attrs) ≡ insert k v attrs
unfolding published_attributes insert
published_attributes-insert t k v [] = refl
published_attributes-insert t k v ((j, w) ∷ attrs) = elim (Bool-cases (j == k)) [
  | inl e ↦ rw e refl
  | inr e ↦ rw e refl
]

pub retryable-Counted :
    (env : Env) (msg : Message) (t : String) (c n : ℕ) (attrs : Attributes)
    → Counted t c n attrs
    → c ≤ max_int
    → n ≤ max_int
    → retryable env msg attrs ≡ record {
      actions = retry_counted env msg attrs (pos c) (pos n) ++ ack ∷ [];
      panicked = false;
    }
unfolding retryable retry_parsed
retryable-Counted env msg t c n attrs h hc hn =
    rw (h.count, h.limit, atoi-itoa c hc, atoi-itoa n hn, retry_parsed) refl

archived_published :
    (env : Env) (m : Message) (rest : List Action)
    → env.publishes dead_letter_topic m ≡ true
    → first_published env (archived_msg env m ++ rest) ≡ some (dead_letter_topic, m)
unfolding archived_msg
archived_published env m rest h = rw h refl

republish_published :
    (env : Env) (t : String) (m : Message) (rest : List Action)
    → Lives env
    → env.publishes t m ≡ true
    → first_published env (republish env t m ++ rest) ≡ some (t, m)
unfolding republish
republish_published env t m rest (wakes, done) h = rw (wakes, done, h) refl

retry_counted_last :
    (env : Env) (msg : Message) (attrs : Attributes) (n : ℕ) (rest : List Action)
    → env.publishes dead_letter_topic (record msg { attributes = some attrs }) ≡ true
    → first_published env (retry_counted env msg attrs (pos n) (pos n) ++ rest)
      ≡ some (dead_letter_topic, record msg { attributes = some attrs })
unfolding retry_counted
retry_counted_last env msg attrs n rest h =
    let over : geb (pos n) (pos n) ≡ true = ground arith in
    rw over (archived_published env (record msg { attributes = some attrs }) rest h)

-- The message as it is sent again, for the `c`th time.
abbrev pub resent : Message → Attributes → ℕ → Message
resent msg attrs c = record msg { attributes = some (insert "retry_count" (itoa (pos c)) attrs) }

retry_counted_again :
    (env : Env) (msg : Message) (attrs : Attributes) (t : String) (c n : ℕ) (rest : List Action)
    → Lives env
    → c < n
    → lookup "topic" attrs ≡ some t
    → env.publishes t (resent msg attrs (c + 1)) ≡ true
    → first_published env (retry_counted env msg attrs (pos c) (pos n) ++ rest)
      ≡ some (t, resent msg attrs (c + 1))
unfolding retry_counted
retry_counted_again env msg attrs t c n rest lives left topic h =
    let under : geb (pos c) (pos n) ≡ false = ground arith in
    rw (under, topic) (republish_published env t (resent msg attrs (c + 1)) rest lives h)

module _ (env : Env) (fails : AlwaysFails env) where
  -- The attributes with the error of this round.
  abbrev marked : Message → Attributes → Attributes
  marked msg attrs = insert "msg" (fails.error msg.body) attrs

  handler_retries :
      (msg : Message) (attrs : Attributes) (t : String) (c n : ℕ)
      → msg.attributes ≡ some attrs
      → Counted t c n attrs
      → c ≤ max_int
      → n ≤ max_int
      → (to_gpubsub_handler env msg).actions
        ≡ (retry_counted env msg (marked msg attrs) (pos c) (pos n) ++ ack ∷ []) ++ nack ∷ []
  unfolding to_gpubsub_handler handle_result
  handler_retries msg attrs t c n a h hc hn =
      ap (λ r. (handle_result env msg r msg.attributes).actions ++ nack ∷ []) (fails.fails msg.body)
      ∙ ap (λ r. (handle_result env msg (some (fails.error msg.body)) r).actions ++ nack ∷ []) a
      ∙ ap (λ (r : Run). r.actions ++ nack ∷ [])
          (retryable-Counted env msg t c n (marked msg attrs) (Counted-msg t _ c n attrs h) hc hn)

  -- With the limit reached, the message goes to the dead letter topic.
  last_round :
      (msg : Message) (attrs : Attributes) (t : String) (n : ℕ)
      → msg.attributes ≡ some attrs
      → Counted t n n attrs
      → n ≤ max_int
      → first_published env (to_gpubsub_handler env msg).actions
        ≡ some (dead_letter_topic, record msg { attributes = some (marked msg attrs) })
  last_round msg attrs t n a h hn =
      rw (handler_retries msg attrs t n n a h hn hn, append_assoc _ (ack ∷ []) (nack ∷ []))
        (retry_counted_last env msg (marked msg attrs) n (ack ∷ nack ∷ []) (fails.publishes _ _))

  -- Below the limit, it goes to its topic again.
  next_round :
      (msg : Message) (attrs : Attributes) (t : String) (c n : ℕ)
      → msg.attributes ≡ some attrs
      → Counted t c n attrs
      → c < n
      → n ≤ max_int
      → first_published env (to_gpubsub_handler env msg).actions
        ≡ some (t, resent msg (marked msg attrs) (c + 1))
  next_round msg attrs t c n a h left hn =
      rw
        (
          handler_retries msg attrs t c n a h (omega arith) hn,
          append_assoc _ (ack ∷ []) (nack ∷ []),
        )
        (retry_counted_again env msg (marked msg attrs) t c n (ack ∷ nack ∷ []) fails.lives left
          (Counted-msg t _ c n attrs h).topic (fails.publishes _ _))

  attempts_from :
      (marshal : Message → String) (ids : ℕ → String) (t : String) (k c n f : ℕ) (msg : Message)
      (attrs : Attributes)
      → (t == dead_letter_topic) ≡ false
      → msg.attributes ≡ some attrs
      → Counted t c n attrs
      → c + k ≡ n
      → n ≤ max_int
      → k < f
      → attempts f env marshal ids msg ≡ replicate k t ++ dead_letter_topic ∷ []
  unfolding attempts delivered
  attempts_from marshal ids t k c n zero msg attrs other a h e hn fuel = absurd (omega arith)
  attempts_from marshal ids t zero c n (suc f) msg attrs other a h e hn fuel =
      let reached = subst (λ i. Counted t i n attrs) (omega arith) h in
      rw (last_round msg attrs t n a reached hn, (string_Eq.same_iff dead_letter_topic _).1 refl)
        refl
  attempts_from marshal ids t (suc k) c n (suc f) msg attrs other a h e hn fuel =
      rw (next_round msg attrs t c n a h (omega arith) hn, other)
        (ap (λ l. t ∷ l)
          (attempts_from marshal ids t k (c + 1) n f _
            (insert "retry_count" (itoa (pos (c + 1))) (marked msg attrs)) other
            (ap some (published_attributes-insert t _ _ (marked msg attrs)))
            (Counted-retry t c (c + 1) n (marked msg attrs) (Counted-msg t _ c n attrs h))
            (omega arith) hn (omega arith)))

-- A message on a topic `t` other than the dead letter topic, with no retry count and a limit `n` that is
-- a 64-bit integer, whose handler always fails, is published `n` more times to `t` and then once to the dead letter
-- topic, while the broker takes every publication and the context lives, whatever fuel above `n` is
-- given.
pub attempts_exact :
    (env : Env) (marshal : Message → String) (ids : ℕ → String) (t : String) (n f : ℕ)
    (msg : Message) (attrs : Attributes)
    → AlwaysFails env
    → (t == dead_letter_topic) ≡ false
    → msg.attributes ≡ some attrs
    → lookup "topic" attrs ≡ some t
    → lookup "max_retries" attrs ≡ some (itoa (pos n))
    → lookup "retry_count" attrs ≡ none
    → n ≤ max_int
    → n < f
    → attempts f env marshal ids msg ≡ replicate n t ++ dead_letter_topic ∷ []
attempts_exact env marshal ids t n f msg attrs fails other a topic limit fresh hn fuel =
    attempts_from env fails marshal ids t n 0 n f msg attrs other a
      (record { topic = topic; limit = limit; count = ap (or_zero "0") fresh ∙ sym zero_text })
      (omega arith) hn fuel
  where
    zero_text : itoa (pos 0) ≡ "0"
    zero_text = unfold itoa in refl
