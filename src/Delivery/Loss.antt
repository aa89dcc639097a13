-- ===== src/Delivery/Loss.antt =====
-- The deliveries that the rule of `Settlement` leaves out: a context that ends, and panics.
use gqueue.Common.{
  String, true, false, ◌≡◌, ◌≢◌, ◌↔◌, Option, none, some, List, [], ◌∷◌, ◌++◌, refl, ℤ, geb, insert,
  string_Eq,
}
use gqueue.Strconv.{atoi}
use gqueue.Delivery.{
  Attributes, Message, Action, ack, nack, wait, publish, count_dlq, count_retry, cancelled, Env,
  republish, retry_counted, retry_parsed, retryable, handle_result, str_retry_count,
  str_max_retry_count, to_gpubsub_handler,
}
use gqueue.Delivery.Settlement.{settled, has_published}

-- Both counts are numbers once the error is written to the attributes.
abbrev pub Readable : String → Attributes → Type 0
Readable err attrs =
    (atoi (str_retry_count (insert "msg" err attrs)) ≢ none)
    × (atoi (str_max_retry_count (insert "msg" err attrs)) ≢ none)

-- `attrs` says that retries are left.
abbrev pub RetriesLeft : Attributes → Type 0
RetriesLeft attrs =
    (c n : ℤ) × (atoi (str_retry_count attrs) ≡ some c)
    × (atoi (str_max_retry_count attrs) ≡ some n)
    × (geb c n ≡ false)

-- A message whose handler fails with retries left, while the context is cancelled during the wait,
-- is acknowledged though it was published nowhere: it is lost.
pub cancelled_loses :
    (env : Env) (msg : Message) (err : String) (attrs : Attributes)
    → env.wakes ≡ cancelled
    → env.handler msg.body ≡ some err
    → msg.attributes ≡ some attrs
    → RetriesLeft (insert "msg" err attrs)
    → let run = to_gpubsub_handler env msg in
      (run.panicked ≡ false)
      × (settled run.actions ≡ some true)
      × (has_published env run.actions ≡ false)
unfolding to_gpubsub_handler handle_result retryable retry_parsed retry_counted republish
cancelled_loses env msg err attrs w h a (c, n, ec, en, left) =
    rw (h, a, ec, en, left, w, handle_result, retry_parsed, retry_counted, republish)
      (refl, refl, refl)

settled-concat_nack : (xs : List Action) → settled (xs ++ nack ∷ []) ≢ none
settled-concat_nack [] = cc
settled-concat_nack (ack ∷ xs) = cc
settled-concat_nack (nack ∷ xs) = cc
settled-concat_nack (wait ∷ xs) = settled-concat_nack xs
settled-concat_nack (publish t m ∷ xs) = settled-concat_nack xs
settled-concat_nack (count_dlq t ∷ xs) = settled-concat_nack xs
settled-concat_nack (count_retry t ∷ xs) = settled-concat_nack xs

-- Every delivery settles its message, also one that panics.
pub to_gpubsub_handler_settles :
    (env : Env) (msg : Message) → settled (to_gpubsub_handler env msg).actions ≢ none
unfolding to_gpubsub_handler
to_gpubsub_handler_settles env msg =
    settled-concat_nack (handle_result env msg (env.handler msg.body) msg.attributes).actions

retry_parsed_panics_iff :
    (env : Env) (msg : Message) (attrs : Attributes) (c n : Option ℤ)
    → ((retry_parsed env msg attrs c n).panicked ≡ false) ↔ ((c ≢ none) × (n ≢ none))
unfolding retry_parsed
retry_parsed_panics_iff env msg attrs none n = ((λ h. cc), (λ h. absurd (h.0 refl)))
retry_parsed_panics_iff env msg attrs (some c) none = ((λ h. cc), (λ h. absurd (h.1 refl)))
retry_parsed_panics_iff env msg attrs (some c) (some n) =
    ((λ h. ((λ e. cc), (λ e. cc))), (λ h. refl))

-- What a failing handler needs of the message.
abbrev pub CanRetry : Option String → Option Attributes → Type 0
CanRetry none _ = Unit
CanRetry (some err) none = ⊥
CanRetry (some err) (some attrs) = Readable err attrs

handle_result_panics_iff :
    (env : Env) (msg : Message) (r : Option String) (attrs : Option Attributes)
    → ((handle_result env msg r attrs).panicked ≡ false) ↔ CanRetry r attrs
unfolding handle_result
handle_result_panics_iff env msg none attrs = ((λ h. tt), (λ h. refl))
handle_result_panics_iff env msg (some err) none = ((λ h. cc), (λ h. absurd h))
handle_result_panics_iff env msg (some err) (some attrs) =
    unfold retryable in
    retry_parsed_panics_iff env msg (insert "msg" err attrs)
      (atoi (str_retry_count (insert "msg" err attrs)))
      (atoi (str_max_retry_count (insert "msg" err attrs)))

-- A delivery does not panic exactly when its handler succeeds, or its message has attributes whose
-- retry count (where there is one) and retry limit are numbers.
pub to_gpubsub_handler_panics_iff :
    (env : Env) (msg : Message)
    → ((to_gpubsub_handler env msg).panicked ≡ false)
      ↔ CanRetry (env.handler msg.body) msg.attributes
unfolding to_gpubsub_handler
to_gpubsub_handler_panics_iff env msg =
    handle_result_panics_iff env msg (env.handler msg.body) msg.attributes
