-- ===== src/Auth/Bytes.antt =====
-- Texts as bytes, and what pkg/auth/basic.go takes from Go's strings package.
use gqueue.Common.{
  ℕ, Bool, true, false, ◌&&◌, ◌≡◌, ◌≢◌, ◌↔◌, refl, Eq, nat_eq, nat_eq_iff, Option, none, some, List,
  [], ◌∷◌, ◌++◌, if◌then◌else◌, arith, All,
}

abbrev pub Text : Type 0
Text = List ℕ

abbrev pub text_same : Text → Text → Bool
text_same [] [] = true
text_same [] (d ∷ t) = false
text_same (c ∷ s) [] = false
text_same (c ∷ s) (d ∷ t) = nat_eq c d && text_same s t

pub text_same_iff : (s t : Text) → (text_same s t ≡ true) ↔ (s ≡ t)
text_same_iff [] [] = ((λ _. refl), (λ _. refl))
text_same_iff [] (d ∷ t) = ((λ h. cc), (λ h. cc))
text_same_iff (c ∷ s) [] = ((λ h. cc), (λ h. cc))
text_same_iff (c ∷ s) (d ∷ t) = ground (arith, nat_eq_iff c d, text_same_iff s t)

instance abbrev pub text_Eq : Eq Text
text_Eq = record { same = text_same; same_iff = text_same_iff }

-- The parts of strings.SplitN(s, ":", 2); `none` where there is one part.
unfoldable pub split_colon : Text → Option (Text × Text)
split_colon [] = none
split_colon (c ∷ s) =
    if nat_eq c 58
    then some ([], s)
    else (elim (split_colon s) [ none ↦ none | some parts ↦ some (c ∷ parts.0, parts.1) ])

-- strings.HasPrefix and strings.TrimPrefix in one; `none` where it is no prefix.
unfoldable pub strip_prefix : Text → Text → Option Text
strip_prefix [] s = some s
strip_prefix (p ∷ ps) [] = none
strip_prefix (p ∷ ps) (c ∷ s) = let rest = strip_prefix ps s in if nat_eq p c then rest else none

-- "Basic "
abbrev pub basic_prefix : Text
basic_prefix = 66 ∷ 97 ∷ 115 ∷ 105 ∷ 99 ∷ 32 ∷ []

pub strip_prefix-append : (p s : Text) → strip_prefix p (p ++ s) ≡ some s
unfolding strip_prefix
strip_prefix-append [] s = refl
strip_prefix-append (c ∷ p) s = ground (arith, strip_prefix-append p s)

pub split_colon-append :
    (user password : Text)
    → All (λ c. c ≢ 58) user
    → split_colon (user ++ 58 ∷ password) ≡ some (user, password)
unfolding split_colon
split_colon-append [] password h = refl
split_colon-append (c ∷ user) password (n, h) =
    ground (arith, n, split_colon-append user password h)
