-- ===== src/Topic.antt =====
-- pkg/topicutils/sanitize.go, and the topic names of internal/domain (project.go, events.go).
mod Shape
pub mod Names
pub mod Fixpoint
mod Tests
use Prim.Native.String.{[], ◌∷◌}
use gqueue.Common.{
  ℕ, zero, suc, Char, code, String, Bool, true, false, not, ◌&&◌, ◌||◌, ltb, leb, nat_eq,
  if◌then◌else◌, ◌≡◌, refl,
}

abbrev pub is_letter : Char → Bool
is_letter c = leb b'a' (code c) && leb (code c) b'z' || leb b'A' (code c) && leb (code c) b'Z'

abbrev pub is_hyphen : Char → Bool
is_hyphen c = nat_eq (code c) b'-'

-- The characters that `invalidCharsRegex` leaves alone.
abbrev pub is_valid : Char → Bool
is_valid c =
    is_letter c || leb b'0' (code c) && leb (code c) b'9' || is_hyphen c || nat_eq (code c) b'_'

abbrev pub length : String → ℕ
length [] = 0
length (c ∷ s) = suc (length s)

-- invalidCharsRegex.ReplaceAllString(s, "-")
unfoldable pub replace_invalid : String → String
replace_invalid [] = []
replace_invalid (c ∷ s) = (if is_valid c then c else "-") ∷ replace_invalid s

abbrev pub starts_hyphen : String → Bool
starts_hyphen [] = false
starts_hyphen (c ∷ s) = is_hyphen c

-- consecutiveHyphensRegex.ReplaceAllString(s, "-"): of a run of hyphens the last stays.
unfoldable pub collapse : String → String
collapse [] = []
collapse (c ∷ s) =
    let rest = collapse s in if is_hyphen c && starts_hyphen s then rest else c ∷ rest

unfoldable pub trim_left : String → String
trim_left [] = []
trim_left (c ∷ s) = let rest = trim_left s in if is_hyphen c then rest else c ∷ s

abbrev pub is_empty : String → Bool
is_empty [] = true
is_empty (c ∷ s) = false

unfoldable pub trim_right : String → String
trim_right [] = []
trim_right (c ∷ s) =
    let rest = trim_right s in if is_hyphen c && is_empty rest then [] else c ∷ rest

-- strings.Trim(s, "-")
unfoldable pub trim : String → String
unfolding trim_left trim_right
trim s = trim_right (trim_left s)

-- strings.TrimSuffix(s, "-")
unfoldable pub trim_suffix : String → String
trim_suffix [] = []
trim_suffix (c ∷ []) = if is_hyphen c then [] else c ∷ []
trim_suffix (c ∷ d ∷ s) = c ∷ trim_suffix (d ∷ s)

-- s[:n], where the text has at least `n` characters
unfoldable pub take : ℕ → String → String
take zero s = []
take (suc n) [] = []
take (suc n) (c ∷ s) = c ∷ take n s

-- "topic-" + s
abbrev pub with_prefix : String → String
with_prefix s = "t" ∷ "o" ∷ "p" ∷ "i" ∷ "c" ∷ "-" ∷ s

abbrev pub starts_letter : String → Bool
starts_letter [] = false
starts_letter (c ∷ s) = is_letter c

-- The steps of `SanitizeTopicName` behind the test for the empty name.
unfoldable pub fit : String → String
unfolding take trim_suffix
fit s =
    let s1 = if not (starts_letter s) then with_prefix s else s in
    let s2 = if ltb (length s1) 3 then with_prefix s1 else s1 in
    let s3 = if ltb 255 (length s2) then take 255 s2 else s2 in trim_suffix s3

unfoldable pub sanitize_topic_name : String → String
unfolding replace_invalid collapse trim fit
sanitize_topic_name name =
    let s = trim (collapse (replace_invalid name)) in if is_empty s then "topic" else fit s

abbrev pub project_id : String
project_id = "your-project-id"

abbrev pub event_queue_request_to_external : String
event_queue_request_to_external = "event-queue.request-to-external"

abbrev pub event_queue_dead_letter : String
event_queue_dead_letter = "event-queue.dead-letter"

-- a + b on texts
unfoldable pub append : String → String → String
append [] b = b
append (c ∷ a) b = c ∷ append a b

unfoldable pub build_topic_name : String → String → String
unfolding append sanitize_topic_name
build_topic_name project event = sanitize_topic_name (append project ("-" ∷ event))

unfoldable pub build_subscription_name : String → String
unfolding append sanitize_topic_name
build_subscription_name topic =
    if is_empty topic
    then "topic-subscription"
    else sanitize_topic_name (append topic "-subscription")

topic_tests :
    (sanitize_topic_name "--a..b--" ≡ "a-b")
    × (sanitize_topic_name "é!" ≡ "topic")
    × (sanitize_topic_name "9x" ≡ "topic-9x")
    × (sanitize_topic_name "ab" ≡ "topic-ab")
    × (build_topic_name project_id event_queue_dead_letter
        ≡ "your-project-id-event-queue-dead-letter")
unfolding build_topic_name
topic_tests = (refl, refl, refl, refl, refl)
