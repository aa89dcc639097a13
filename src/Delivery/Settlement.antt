-- ===== src/Delivery/Settlement.antt =====
-- When the broker may forget a message.
use gqueue.Common.{
  String, Bool, true, false, ◌≡◌, Option, none, some, List, [], ◌∷◌, ◌++◌, Bool-cases, inl, inr,
  refl, sym, ap, ◌∙◌, append_assoc, append-nil, string_Eq, increment, if◌then◌else◌, ◌||◌, ℤ, geb,
  lookup, insert, or_zero,
}
use gqueue.Strconv.{atoi, itoa}
use gqueue.Delivery.{
  Attributes, Message, Action, ack, nack, wait, publish, count_dlq, count_retry, elapsed, Env, Run,
  dead_letter_topic, archived_msg, republish, retry_counted, retry_parsed, retryable, handle_result,
  str_retry_count, str_max_retry_count, to_gpubsub_handler,
}

-- The first `Ack` or `Nack` decides; true is `Ack`.
abbrev pub settled : List Action → Option Bool
settled [] = none
settled (ack ∷ rest) = some true
settled (nack ∷ rest) = some false
settled (wait ∷ rest) = settled rest
settled (publish _ _ ∷ rest) = settled rest
settled (count_dlq _ ∷ rest) = settled rest
settled (count_retry _ ∷ rest) = settled rest

-- Some publication among the actions went well.
abbrev pub has_published : Env → List Action → Bool
has_published env [] = false
has_published env (publish t m ∷ rest) = env.publishes t m || has_published env rest
has_published env (_ ∷ rest) = has_published env rest

-- The context lives through the wait.
abbrev pub Lives : Env → Type 0
Lives env = (env.wakes ≡ elapsed) × (env.done ≡ false)

-- What a publication adds behind itself.
abbrev nack_unless : Bool → List Action
nack_unless b = if b then [] else nack ∷ []

settled-nack_unless :
    (b : Bool) (rest : List Action) → settled (nack_unless b ++ ack ∷ rest) ≡ some b
settled-nack_unless true rest = refl
settled-nack_unless false rest = refl

has_published-nack_unless :
    (env : Env) (p b : Bool) (rest : List Action)
    → has_published env rest ≡ false
    → (p || has_published env (nack_unless b ++ rest)) ≡ p
has_published-nack_unless env true b rest h = refl
has_published-nack_unless env false true rest h = h
has_published-nack_unless env false false rest h = h

settled-archived_msg :
    (env : Env) (msg : Message) (rest : List Action)
    → (settled (archived_msg env msg ++ rest) ≡ some (env.publishes dead_letter_topic msg))
      × (has_published env (archived_msg env msg) ≡ env.publishes dead_letter_topic msg)
unfolding archived_msg
settled-archived_msg env msg rest =
    let b = env.publishes dead_letter_topic msg in
    (
      rw (append_assoc (nack_unless b) (ack ∷ []) rest) (settled-nack_unless b rest),
      has_published-nack_unless env b b (ack ∷ []) refl,
    )

settled-republish :
    (env : Env) (topic : String) (msg : Message) (rest : List Action)
    → Lives env
    → (settled (republish env topic msg ++ ack ∷ rest) ≡ some (env.publishes topic msg))
      × (has_published env (republish env topic msg) ≡ env.publishes topic msg)
unfolding republish
settled-republish env topic msg rest (wakes, done) =
    let b = env.publishes topic msg in
    (
      rw (wakes, done) (settled-nack_unless b rest),
      rw (wakes, done)
          (rw (← append-nil (nack_unless b)) (has_published-nack_unless env b b [] refl)),
    )

settled-retry_counted :
    (env : Env) (msg : Message) (attrs : Attributes) (c n : ℤ) (rest : List Action)
    → Lives env
    → settled (retry_counted env msg attrs c n ++ ack ∷ rest)
      ≡ some (has_published env (retry_counted env msg attrs c n))
unfolding retry_counted
settled-retry_counted env msg attrs c n rest h = elim (Bool-cases (geb c n)) [
  | inl over ↦
      let (a, b) = settled-archived_msg env (record msg { attributes = some attrs }) (ack ∷ rest) in
      rw over (a ∙ ap some (sym b))
  | inr under ↦
      let (a, b) =
        settled-republish env (or_zero "" (lookup "topic" attrs))
          (record msg { attributes = some (insert "retry_count" (itoa (increment c)) attrs) }) rest
          h in
      rw under (a ∙ ap some (sym b))
]

has_published-acks :
    (env : Env) (xs : List Action)
    → (has_published env (xs ++ ack ∷ []) ≡ has_published env xs)
      × (has_published env (xs ++ nack ∷ []) ≡ has_published env xs)
has_published-acks env [] = (refl, refl)
has_published-acks env (publish t m ∷ xs) =
    let (a, b) = has_published-acks env xs in
    (ap (λ x. env.publishes t m || x) a, ap (λ x. env.publishes t m || x) b)
has_published-acks env (ack ∷ xs) = has_published-acks env xs
has_published-acks env (nack ∷ xs) = has_published-acks env xs
has_published-acks env (wait ∷ xs) = has_published-acks env xs
has_published-acks env (count_dlq t ∷ xs) = has_published-acks env xs
has_published-acks env (count_retry t ∷ xs) = has_published-acks env xs

-- What holds of a run in which nothing panicked and the context lived.
abbrev IsAccounted : Env → Run → Type 0
IsAccounted env run =
    run.panicked ≡ false → settled (run.actions ++ nack ∷ []) ≡ some (has_published env run.actions)

retry_parsed-IsAccounted :
    (env : Env) (msg : Message) (attrs : Attributes) (c n : Option ℤ)
    → Lives env
    → IsAccounted env (retry_parsed env msg attrs c n)
unfolding retry_parsed
retry_parsed-IsAccounted env msg attrs none n h p = cc
retry_parsed-IsAccounted env msg attrs (some c) none h p = cc
retry_parsed-IsAccounted env msg attrs (some c) (some n) h p =
    let xs = retry_counted env msg attrs c n in
    rw (append_assoc xs (ack ∷ []) (nack ∷ []), (has_published-acks env xs).0)
      (settled-retry_counted env msg attrs c n (nack ∷ []) h)

abbrev pub is_none : Option String → Bool
is_none none = true
is_none (some e) = false

settled-handle_result :
    (env : Env) (msg : Message) (r : Option String) (attrs : Option Attributes)
    → Lives env
    → let run = handle_result env msg r attrs in
      run.panicked ≡ false
      → settled (run.actions ++ nack ∷ []) ≡ some (is_none r || has_published env run.actions)
unfolding handle_result
settled-handle_result env msg none attrs h p = refl
settled-handle_result env msg (some err) none h p = cc
settled-handle_result env msg (some err) (some attrs) h p =
    unfold retryable in
    retry_parsed-IsAccounted env msg (insert "msg" err attrs)
      (atoi (str_retry_count (insert "msg" err attrs)))
      (atoi (str_max_retry_count (insert "msg" err attrs))) h p

-- While the context lives and nothing panics, a message is acknowledged exactly when the handler
-- took it or some publication of it, to its topic again or to the dead letter topic, went well.
-- In every other case it is refused, and the broker delivers it again.
pub settled-to_gpubsub_handler :
    (env : Env) (msg : Message)
    → Lives env
    → (to_gpubsub_handler env msg).panicked ≡ false
    → settled (to_gpubsub_handler env msg).actions
      ≡ some
          (is_none (env.handler msg.body) || has_published env (to_gpubsub_handler env msg).actions)
unfolding to_gpubsub_handler
settled-to_gpubsub_handler env msg h p =
    let run = handle_result env msg (env.handler msg.body) msg.attributes in
    rw (has_published-acks env run.actions).1
      (settled-handle_result env msg (env.handler msg.body) msg.attributes h p)
