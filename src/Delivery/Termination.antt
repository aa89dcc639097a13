-- ===== src/Delivery/Termination.antt =====
-- How often a message is published, whatever becomes of its deliveries.
use gqueue.Common.{ℕ, ◌+◌, ◌<◌, String, false, ◌≡◌, ◌⊎◌, none, some, List, [], ◌∷◌, ◌++◌, arith}
use gqueue.Delivery.{Attributes, Message, Action, Env, to_gpubsub_handler, dead_letter_topic}
use gqueue.Delivery.Life.{Delivery, is_refused, publications}
use gqueue.Delivery.Retries.{first_published, Counted, resent}

-- Nothing is published, or this message to this topic and the delivery is not refused.
abbrev AtMost : String → Message → Env → List Action → Type 0
AtMost t m env actions =
    (first_published env actions ≡ none)
    ⊎ ((first_published env actions ≡ some (t, m)) × (is_refused actions ≡ false))

-- What one failed delivery publishes, by whether retries are left.
abbrev Next : Message → Attributes → String → ℕ → ℕ → Env → List Action → Type 0
Next msg attrs t c n env actions =
    (first_published env actions ≡ none)
    ⊎ ((m : Message) × (first_published env actions ≡ some (dead_letter_topic, m))
        × (is_refused actions ≡ false))
    ⊎ ((c < n)
        × (first_published env actions ≡ some (t, resent msg attrs (c + 1)))
        × (is_refused actions ≡ false))

-- One delivery, whatever the handler answers; `marked` has the error that was written.
abbrev Delivers : Env → Message → String → ℕ → ℕ → Type 0
Delivers env msg t c n =
    (marked : Attributes) × Counted t c n marked
    × Next msg marked t c n env (to_gpubsub_handler env msg).actions

publications-append :
    (xs ys : List Delivery) → publications (xs ++ ys) ≡ publications xs + publications ys
publications-append [] ys = omega arith
publications-append (x ∷ xs) ys = omega (arith, publications-append xs ys)
