-- ===== src/Topic/Names.antt =====
-- The rules for topic names, and what `SanitizeTopicName` makes of a text.
use Prim.Native.String.{[], ◌∷◌}
use gqueue.Common.{
  ℕ, zero, suc, ◌+◌, ◌≤◌, Char, String, true, false, ltb, if◌then◌else◌, ◌≡◌, refl, Bool-cases,
  arith, inl, inr, ◌⊎◌, ◌∙◌, ap,
}
use gqueue.Topic.{
  is_hyphen, length, replace_invalid, starts_hyphen, collapse, is_empty, trim, trim_suffix, take,
  with_prefix, starts_letter, fit, sanitize_topic_name,
}
use gqueue.Topic.Shape.{AllValid, IsCollapsed, ends_hyphen, IsTrimmed, IsTrimmed-trim}

-- The rules for the name of a topic, and no hyphen at the end.
pub record IsTopicName (s : String) : Type 0 where
  pub first : starts_letter s ≡ true
  pub valid : AllValid s
  pub collapsed : IsCollapsed s
  pub last : ends_hyphen s ≡ false
  pub long : 3 ≤ length s
  pub short : length s ≤ 255

ends_hyphen-with_prefix :
    (s : String) → ends_hyphen s ≡ false → is_empty s ≡ false → ends_hyphen (with_prefix s) ≡ false
ends_hyphen-with_prefix [] h n = cc
ends_hyphen-with_prefix (c ∷ s) h n = h

-- A name before the cut: all but the upper bound.
record IsLongName (s : String) : Type 0 where
  first : starts_letter s ≡ true
  valid : AllValid s
  collapsed : IsCollapsed s
  last : ends_hyphen s ≡ false
  long : 3 ≤ length s

pub starts_letter-hyphen :
    (s : String) → starts_letter s ≡ true → (starts_hyphen s ≡ false) × (is_empty s ≡ false)
starts_letter-hyphen [] h = cc
starts_letter-hyphen (c ∷ s) h = ground arith

AllValid-take : (n : ℕ) (s : String) → AllValid s → AllValid (take n s)
unfolding take
AllValid-take zero s h = tt
AllValid-take (suc n) [] h = tt
AllValid-take (suc n) (c ∷ s) (v, h) = (v, AllValid-take n s h)

IsCollapsed-take : (n : ℕ) (s : String) → IsCollapsed s → IsCollapsed (take n s)
unfolding take
IsCollapsed-take zero s h = tt
IsCollapsed-take (suc n) [] h = tt
IsCollapsed-take (suc zero) (c ∷ s) (v, h) = ((λ _. refl), tt)
IsCollapsed-take (suc (suc n)) (c ∷ []) (v, h) = ((λ _. refl), tt)
IsCollapsed-take (suc (suc n)) (c ∷ d ∷ s) (v, h) = (v, IsCollapsed-take (suc n) (d ∷ s) h)

length-take : (n : ℕ) (s : String) → n ≤ length s → length (take n s) ≡ n
unfolding take
length-take zero s h = refl
length-take (suc n) [] h = absurd (omega arith)
length-take (suc n) (c ∷ s) h = omega (arith, length-take n s)

starts_letter-take : (n : ℕ) (s : String) → starts_letter (take (suc n) s) ≡ starts_letter s
unfolding take
starts_letter-take n [] = refl
starts_letter-take n (c ∷ s) = refl

-- TrimSuffix removes at most one character, and none where the text does not end in a hyphen.
pub trim_suffix_same : (s : String) → ends_hyphen s ≡ false → trim_suffix s ≡ s
unfolding trim_suffix
trim_suffix_same [] h = refl
trim_suffix_same (c ∷ []) h = rw h refl
trim_suffix_same (c ∷ d ∷ s) h = ap (λ t. c ∷ t) (trim_suffix_same (d ∷ s) h)

trim_suffix_one : (P : String → Type 0) (c : Char) → P [] → P (c ∷ []) → P (trim_suffix (c ∷ []))
unfolding trim_suffix
trim_suffix_one P c gone kept = elim (Bool-cases (is_hyphen c)) [
  | inl h ↦ rw h gone
  | inr h ↦ rw h kept
]

length-trim_suffix :
    (s : String) → (length (trim_suffix s) ≤ length s) × (length s ≤ length (trim_suffix s) + 1)
unfolding trim_suffix
length-trim_suffix [] = omega arith
length-trim_suffix (c ∷ []) =
    trim_suffix_one (λ t. (length t ≤ 1) × (1 ≤ length t + 1)) c (omega arith) (omega arith)
length-trim_suffix (c ∷ d ∷ s) = omega (arith, length-trim_suffix (d ∷ s))

AllValid-trim_suffix : (s : String) → AllValid s → AllValid (trim_suffix s)
unfolding trim_suffix
AllValid-trim_suffix [] h = tt
AllValid-trim_suffix (c ∷ []) (v, h) = trim_suffix_one AllValid c tt (v, h)
AllValid-trim_suffix (c ∷ d ∷ s) (v, h) = (v, AllValid-trim_suffix (d ∷ s) h)

starts_hyphen-trim_suffix :
    (s : String) → starts_hyphen s ≡ false → starts_hyphen (trim_suffix s) ≡ false
unfolding trim_suffix
starts_hyphen-trim_suffix [] h = refl
starts_hyphen-trim_suffix (c ∷ []) h = rw h h
starts_hyphen-trim_suffix (c ∷ d ∷ s) h = h

IsCollapsed-trim_suffix : (s : String) → IsCollapsed s → IsCollapsed (trim_suffix s)
unfolding trim_suffix
IsCollapsed-trim_suffix [] h = tt
IsCollapsed-trim_suffix (c ∷ []) (v, h) = trim_suffix_one IsCollapsed c tt (v, h)
IsCollapsed-trim_suffix (c ∷ d ∷ s) (v, h) =
    ((λ hyphen. starts_hyphen-trim_suffix (d ∷ s) (v hyphen)), IsCollapsed-trim_suffix (d ∷ s) h)

starts_letter-trim_suffix :
    (s : String) → starts_letter s ≡ true → starts_letter (trim_suffix s) ≡ true
unfolding trim_suffix
starts_letter-trim_suffix [] h = cc
starts_letter-trim_suffix (c ∷ []) h = rw (starts_letter-hyphen (c ∷ []) h).0 h
starts_letter-trim_suffix (c ∷ d ∷ s) h = h

-- In a collapsed text a hyphen at the end has no hyphen before it.
ends_hyphen-trim_suffix : (s : String) → IsCollapsed s → ends_hyphen (trim_suffix s) ≡ false
unfolding trim_suffix
ends_hyphen-trim_suffix [] h = refl
ends_hyphen-trim_suffix (c ∷ []) h = elim (Bool-cases (is_hyphen c)) [
  | inl gone ↦ rw gone refl
  | inr kept ↦ rw kept kept
]
ends_hyphen-trim_suffix (c ∷ d ∷ []) (v, h) = elim (Bool-cases (is_hyphen d)) [
  | inl gone ↦ rw gone (before (Bool-cases (is_hyphen c)) gone)
  | inr kept ↦ rw kept kept
]
  where
    before : (is_hyphen c ≡ true) ⊎ (is_hyphen c ≡ false) → is_hyphen d ≡ true → is_hyphen c ≡ false
    before (inl hyphen) e = cc (v hyphen)
    before (inr other) e = other
ends_hyphen-trim_suffix (c ∷ d ∷ e ∷ s) (v, h) = ends_hyphen-trim_suffix (d ∷ e ∷ s) h

cut_IsTopicName :
    (s : String)
    → IsLongName s
    → IsTopicName (trim_suffix (if ltb 255 (length s) then take 255 s else s))
cut_IsTopicName s h = elim (Bool-cases (ltb 255 (length s))) [
  | inl over ↦ rw over (record {
    first = starts_letter-trim_suffix (take 255 s) (starts_letter-take 254 s ∙ h.first);
    valid = AllValid-trim_suffix (take 255 s) (AllValid-take 255 s h.valid);
    collapsed = IsCollapsed-trim_suffix (take 255 s) (IsCollapsed-take 255 s h.collapsed);
    last = ends_hyphen-trim_suffix (take 255 s) (IsCollapsed-take 255 s h.collapsed);
    long = omega (arith, length-trim_suffix (take 255 s), length-take 255 s (ground arith));
    short = omega (arith, length-trim_suffix (take 255 s), length-take 255 s (ground arith));
  })
  | inr fits ↦
      rw (fits, trim_suffix_same s h.last)
        (record {
          first = h.first;
          valid = h.valid;
          collapsed = h.collapsed;
          last = h.last;
          long = h.long;
          short = ground arith;
        })
]

IsLongName-with_prefix :
    (s : String) → IsTrimmed s → is_empty s ≡ false → IsLongName (with_prefix s)
IsLongName-with_prefix s h n = record {
  first = refl;
  valid = (refl, (refl, (refl, (refl, (refl, (refl, h.clean.valid))))));
  collapsed = (
    (λ _. refl),
    ((λ _. refl), ((λ _. refl), ((λ _. refl), ((λ e. cc), ((λ _. h.first), h.clean.collapsed))))),
  );
  last = ends_hyphen-with_prefix s h.last n;
  long = omega arith;
}

IsTrimmed-with_prefix : (s : String) → IsTrimmed s → is_empty s ≡ false → IsTrimmed (with_prefix s)
IsTrimmed-with_prefix s h n =
    let l = IsLongName-with_prefix s h n in
    record {
      clean = record { valid = l.valid; collapsed = l.collapsed };
      first = refl;
      last = l.last;
    }

fit_long :
    (s : String)
    → starts_letter s ≡ true
    → IsTrimmed s
    → IsLongName (if ltb (length s) 3 then with_prefix s else s)
fit_long s l h = elim (Bool-cases (ltb (length s) 3)) [
  | inl few ↦ rw few (IsLongName-with_prefix s h (starts_letter-hyphen s l).1)
  | inr enough ↦ rw enough (record {
    first = l;
    valid = h.clean.valid;
    collapsed = h.clean.collapsed;
    last = h.last;
    long = ground arith;
  })
]

fit-IsTopicName : (s : String) → IsTrimmed s → is_empty s ≡ false → IsTopicName (fit s)
unfolding fit
fit-IsTopicName s h n = elim (Bool-cases (starts_letter s)) [
  | inl l ↦ rw l (cut_IsTopicName _ (fit_long s l h))
  | inr l ↦ rw l (cut_IsTopicName _ (fit_long (with_prefix s) refl (IsTrimmed-with_prefix s h n)))
]

topic-IsTopicName : IsTopicName "topic"
topic-IsTopicName = record {
  first = refl;
  valid = (refl, (refl, (refl, (refl, (refl, tt)))));
  collapsed = ((λ _. refl), ((λ _. refl), ((λ _. refl), ((λ _. refl), ((λ _. refl), tt)))));
  last = refl;
  long = omega arith;
  short = omega arith;
}

-- Whatever the text, its sanitised form keeps the rules for topic names: it starts with a letter,
-- has only letters, digits, hyphens and underscores, and has 3 to 255 characters; and it has no two
-- hyphens in a row and none at the end.
pub sanitize_topic_name-IsTopicName : (name : String) → IsTopicName (sanitize_topic_name name)
unfolding sanitize_topic_name
sanitize_topic_name-IsTopicName name =
    let s = trim (collapse (replace_invalid name)) in
    elim (Bool-cases (is_empty s)) [
      | inl h ↦ rw h topic-IsTopicName
      | inr h ↦ rw h (fit-IsTopicName s (IsTrimmed-trim name) h)
    ]
