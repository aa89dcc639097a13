-- ===== src/Delivery/Life.antt =====
-- All deliveries that a message leads to: a message that is refused is delivered again, and one that
-- is published is delivered on its topic. The environment of each delivery is its own.
use gqueue.Common.{
  ℕ, zero, suc, ◌+◌, String, Bool, true, false, not, Option, none, some, List, [], ◌∷◌, ◌++◌, ◌==◌,
  string_Eq, if◌then◌else◌,
}
use gqueue.Delivery.{Message, Action, Env, to_gpubsub_handler, dead_letter_topic, delivered}
use gqueue.Delivery.Settlement.{settled}
use gqueue.Delivery.Retries.{first_published}

-- One delivery, and what it published
pub record Delivery : Type 0 where
  pub message : Message
  pub published : Option (String × Message)

abbrev is_true : Option Bool → Bool
is_true none = false
is_true (some b) = b

-- What the broker was told first is not `Ack`, so that it delivers the message again.
unfoldable pub is_refused : List Action → Bool
is_refused actions = not (is_true (settled actions))

-- The deliveries of what was published; on the dead letter topic the life ends.
abbrev pub follow :
    (Message → List Delivery)
    → (String → Message → Message)
    → Option (String × Message)
    → List Delivery
follow next deliver none = []
follow next deliver (some (t, m)) =
    let later = next (deliver t m) in if t == dead_letter_topic then [] else later

abbrev pub redeliver : (Message → List Delivery) → Message → Bool → List Delivery
redeliver next msg true = next msg
redeliver next msg false = []

-- The deliveries, the redeliveries of a message before those of what it published; the broker chooses
-- the ids.
unfoldable pub life : ℕ → (ℕ → Env) → (Message → String) → (ℕ → String) → Message → List Delivery
life zero envs marshal ids msg = []
life (suc f) envs marshal ids msg =
    let actions = (to_gpubsub_handler (envs f) msg).actions in
    let published = first_published (envs f) actions in
    record { message = msg; published = published }
    ∷ (redeliver (life f envs marshal ids) msg (is_refused actions)
        ++ follow (life f envs marshal ids) (delivered marshal (ids f)) published)

abbrev pub one_if_published : Option (String × Message) → ℕ
one_if_published none = 0
one_if_published (some p) = 1

-- The number of publications that went well
abbrev pub publications : List Delivery → ℕ
publications [] = 0
publications (d ∷ ds) = one_if_published d.published + publications ds
