-- ===== src/Topic/Shape.antt =====
-- What a sanitised topic name looks like.
use Prim.Native.String.{[], ◌∷◌}
use gqueue.Common.{
  Char, String, Bool, true, false, ◌&&◌, if◌then◌else◌, ◌≡◌, refl, Bool-cases, arith, inl, inr, ◌⊎◌,
}
use gqueue.Topic.{
  is_hyphen, is_valid, replace_invalid, starts_hyphen, collapse, trim_left, is_empty, trim_right,
  trim,
}

-- Only letters, digits, hyphens and underscores.
abbrev pub AllValid : String → Type 0
AllValid [] = Unit
AllValid (c ∷ s) = (is_valid c ≡ true) × AllValid s

-- No two hyphens in a row.
abbrev pub IsCollapsed : String → Type 0
IsCollapsed [] = Unit
IsCollapsed (c ∷ s) = (is_hyphen c ≡ true → starts_hyphen s ≡ false) × IsCollapsed s

-- The last character, if there is one, is no hyphen.
abbrev pub ends_hyphen : String → Bool
ends_hyphen [] = false
ends_hyphen (c ∷ []) = is_hyphen c
ends_hyphen (c ∷ d ∷ s) = ends_hyphen (d ∷ s)

-- The characters and runs of hyphens are right.
pub record IsClean (s : String) : Type 0 where
  pub valid : AllValid s
  pub collapsed : IsCollapsed s

AllValid-replace_invalid : (s : String) → AllValid (replace_invalid s)
unfolding replace_invalid
AllValid-replace_invalid [] = tt
AllValid-replace_invalid (c ∷ s) = (keeps (Bool-cases (is_valid c)), AllValid-replace_invalid s)
  where
    keeps :
        (is_valid c ≡ true) ⊎ (is_valid c ≡ false) → is_valid (if is_valid c then c else "-") ≡ true
    keeps (inl h) = rw h h
    keeps (inr h) = rw h refl

starts_hyphen-collapse : (s : String) → starts_hyphen (collapse s) ≡ starts_hyphen s
unfolding collapse
starts_hyphen-collapse [] = refl
starts_hyphen-collapse (c ∷ s) = ground (arith, starts_hyphen-collapse s)

AllValid-collapse : (s : String) → AllValid s → AllValid (collapse s)
unfolding collapse
AllValid-collapse [] h = tt
AllValid-collapse (c ∷ s) (v, h) = ground (arith, AllValid-collapse s h)

IsCollapsed-collapse : (s : String) → IsCollapsed (collapse s)
unfolding collapse
IsCollapsed-collapse [] = tt
IsCollapsed-collapse (c ∷ s) = ground (arith, IsCollapsed-collapse s, starts_hyphen-collapse s)

AllValid-trim_left : (s : String) → AllValid s → AllValid (trim_left s)
unfolding trim_left
AllValid-trim_left [] h = tt
AllValid-trim_left (c ∷ s) (v, h) = ground (arith, AllValid-trim_left s h)

IsCollapsed-trim_left : (s : String) → IsCollapsed s → IsCollapsed (trim_left s)
unfolding trim_left
IsCollapsed-trim_left [] h = tt
IsCollapsed-trim_left (c ∷ s) (v, h) = ground (arith, IsCollapsed-trim_left s h)

starts_hyphen-trim_left : (s : String) → starts_hyphen (trim_left s) ≡ false
unfolding trim_left
starts_hyphen-trim_left [] = refl
starts_hyphen-trim_left (c ∷ s) = ground (arith, starts_hyphen-trim_left s)

AllValid-trim_right : (s : String) → AllValid s → AllValid (trim_right s)
unfolding trim_right
AllValid-trim_right [] h = tt
AllValid-trim_right (c ∷ s) (v, h) = ground (arith, AllValid-trim_right s h)

starts_hyphen-trim_right :
    (s : String) → starts_hyphen s ≡ false → starts_hyphen (trim_right s) ≡ false
unfolding trim_right
starts_hyphen-trim_right [] h = refl
starts_hyphen-trim_right (c ∷ s) h = ground arith

-- One character in front of a trimmed rest.
abbrev pub push_trimmed : Char → String → String
push_trimmed c r = if is_hyphen c && is_empty r then [] else c ∷ r

IsCollapsed-push_trimmed :
    (c : Char) (r : String)
    → (is_hyphen c ≡ true → starts_hyphen r ≡ false)
    → IsCollapsed r
    → IsCollapsed (push_trimmed c r)
IsCollapsed-push_trimmed c r h k = elim (Bool-cases (is_hyphen c && is_empty r)) [
  | inl gone ↦ rw gone tt
  | inr kept ↦ rw kept (h, k)
]

ends_hyphen-push_trimmed :
    (c : Char) (r : String) → ends_hyphen r ≡ false → ends_hyphen (push_trimmed c r) ≡ false
ends_hyphen-push_trimmed c [] h = elim (Bool-cases (is_hyphen c)) [
  | inl gone ↦ rw gone refl
  | inr kept ↦ rw kept kept
]
ends_hyphen-push_trimmed c (d ∷ r) h = elim (Bool-cases (is_hyphen c)) [
  | inl gone ↦ rw gone h
  | inr kept ↦ rw kept h
]

IsCollapsed-trim_right : (s : String) → IsCollapsed s → IsCollapsed (trim_right s)
unfolding trim_right
IsCollapsed-trim_right [] h = tt
IsCollapsed-trim_right (c ∷ s) (v, h) =
    IsCollapsed-push_trimmed c (trim_right s) (λ hyphen. starts_hyphen-trim_right s (v hyphen))
      (IsCollapsed-trim_right s h)

ends_hyphen-trim_right : (s : String) → ends_hyphen (trim_right s) ≡ false
unfolding trim_right
ends_hyphen-trim_right [] = refl
ends_hyphen-trim_right (c ∷ s) =
    ends_hyphen-push_trimmed c (trim_right s) (ends_hyphen-trim_right s)

-- What `fit` receives.
pub record IsTrimmed (s : String) : Type 0 where
  pub clean : IsClean s
  pub first : starts_hyphen s ≡ false
  pub last : ends_hyphen s ≡ false

pub IsTrimmed-trim : (name : String) → IsTrimmed (trim (collapse (replace_invalid name)))
unfolding trim
IsTrimmed-trim name =
    let s = collapse (replace_invalid name) in
    record {
      clean = record {
        valid = AllValid-trim_right (trim_left s) (
            AllValid-trim_left s
              (AllValid-collapse (replace_invalid name) (AllValid-replace_invalid name)));
        collapsed =
            IsCollapsed-trim_right (trim_left s)
              (IsCollapsed-trim_left s (IsCollapsed-collapse (replace_invalid name)));
      };
      first = starts_hyphen-trim_right (trim_left s) (starts_hyphen-trim_left s);
      last = ends_hyphen-trim_right (trim_left s);
    }
