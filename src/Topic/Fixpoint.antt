-- ===== src/Topic/Fixpoint.antt =====
-- `SanitizeTopicName` on names that keep the rules.
use Prim.Native.String.{[], ◌∷◌}
use gqueue.Common.{Char, String, false, ltb, ◌≡◌, refl, Bool-cases, arith, inl, inr, ◌∙◌, ap}
use gqueue.Topic.{
  is_hyphen, length, replace_invalid, starts_hyphen, collapse, trim_left, trim_right, trim, fit,
  sanitize_topic_name,
}
use gqueue.Topic.Shape.{AllValid, IsCollapsed, ends_hyphen, push_trimmed}
use gqueue.Topic.Names.{
  IsTopicName, sanitize_topic_name-IsTopicName, starts_letter-hyphen, trim_suffix_same,
}

replace_invalid_same : (s : String) → AllValid s → replace_invalid s ≡ s
unfolding replace_invalid
replace_invalid_same [] h = refl
replace_invalid_same (c ∷ s) (v, h) = rw (v, replace_invalid_same s h) refl

collapse_same : (s : String) → IsCollapsed s → collapse s ≡ s
unfolding collapse
collapse_same [] h = refl
collapse_same (c ∷ s) (v, h) = elim (Bool-cases (is_hyphen c)) [
  | inl hyphen ↦ rw (hyphen, v hyphen, collapse_same s h) refl
  | inr other ↦ rw (other, collapse_same s h) refl
]

trim_left_same : (s : String) → starts_hyphen s ≡ false → trim_left s ≡ s
unfolding trim_left
trim_left_same [] h = refl
trim_left_same (c ∷ s) h = rw h refl

push_trimmed_same : (c : Char) (s : String) → ends_hyphen (c ∷ s) ≡ false → push_trimmed c s ≡ c ∷ s
push_trimmed_same c [] h = rw h refl
push_trimmed_same c (d ∷ s) h = elim (Bool-cases (is_hyphen c)) [
  | inl e ↦ rw e refl
  | inr e ↦ rw e refl
]

ends_hyphen-tail : (c : Char) (s : String) → ends_hyphen (c ∷ s) ≡ false → ends_hyphen s ≡ false
ends_hyphen-tail c [] h = refl
ends_hyphen-tail c (d ∷ s) h = h

trim_right_same : (s : String) → ends_hyphen s ≡ false → trim_right s ≡ s
unfolding trim_right
trim_right_same [] h = refl
trim_right_same (c ∷ s) h =
    ap (push_trimmed c) (trim_right_same s (ends_hyphen-tail c s h)) ∙ push_trimmed_same c s h

fit_same : (s : String) → IsTopicName s → fit s ≡ s
unfolding fit
fit_same s h =
    let enough : ltb (length s) 3 ≡ false = ground (arith, h.long) in
    let fits : ltb 255 (length s) ≡ false = ground (arith, h.short) in
    rw (h.first, enough, fits) (trim_suffix_same s h.last)

-- A name that keeps the rules is its own sanitised form.
pub sanitize_topic_name_same : (s : String) → IsTopicName s → sanitize_topic_name s ≡ s
unfolding sanitize_topic_name trim
sanitize_topic_name_same s h =
    let (first, full) = starts_letter-hyphen s h.first in
    rw
      (
        replace_invalid_same s h.valid,
        collapse_same s h.collapsed,
        trim_left_same s first,
        trim_right_same s h.last,
        full,
      )
      (fit_same s h)

-- Sanitising a second time changes nothing.
pub sanitize_topic_name_idempotent :
    (name : String) → sanitize_topic_name (sanitize_topic_name name) ≡ sanitize_topic_name name
sanitize_topic_name_idempotent name =
    sanitize_topic_name_same (sanitize_topic_name name) (sanitize_topic_name-IsTopicName name)
