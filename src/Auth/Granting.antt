-- ===== src/Auth/Granting.antt =====
-- Who is let in.
use gqueue.Common.{
  ℕ, Bool, true, false, ◌≡◌, ◌≢◌, ◌↔◌, refl, sym, ap, ◌∙◌, Option, none, some, [], ◌∷◌, ◌++◌, All,
  if◌then◌else◌, lookup, lookup-delete, Bool-cases, inl, inr,
}
use gqueue.Auth.Bytes.{
  Text, text_Eq, text_same_iff, basic_prefix, strip_prefix-append, split_colon-append,
}
use gqueue.Auth.Base64.{AreBytes, encode, decode_string, decode_string-encode}
use gqueue.Auth.{
  invalid_credentials, Authenticated, granted, denied, BasicAuth, remove_user, validate_credentials,
  same_password, after_prefix, after_decode, after_split, parse_basic_auth, after_parse,
  authenticate,
}

-- The header that a client sends.
abbrev pub basic_header : Text → Text → Text
basic_header user password = basic_prefix ++ encode (user ++ 58 ∷ password)

encode_cons : (s : Text) → s ≢ [] → (c : ℕ) × (t : Text) × (encode s ≡ c ∷ t)
unfolding encode
encode_cons [] h = absurd (h refl)
encode_cons (x ∷ []) h = (_, _, refl)
encode_cons (x ∷ y ∷ []) h = (_, _, refl)
encode_cons (x ∷ y ∷ z ∷ s) h = (_, _, refl)

append_cons : (s t : Text) (c : ℕ) → (s ++ c ∷ t) ≢ []
append_cons [] t c = cc
append_cons (x ∷ s) t c = cc

after_prefix_full :
    (e : Text) (c : ℕ) (t : Text)
    → e ≡ c ∷ t
    → after_prefix (some e) ≡ after_decode (decode_string e)
after_prefix_full e c t h = rw h refl

parse_basic_auth_header :
    (user password : Text)
    → AreBytes (user ++ 58 ∷ password)
    → All (λ c. c ≢ 58) user
    → parse_basic_auth (basic_header user password) ≡ granted (user, password)
unfolding parse_basic_auth
parse_basic_auth_header user password b n =
    let s = user ++ 58 ∷ password in
    let (c, t, e) = encode_cons s (append_cons user password 58) in
    ap after_prefix (strip_prefix-append basic_prefix (encode s))
    ∙ after_prefix_full (encode s) c t e
    ∙ ap after_decode (decode_string-encode s b)
    ∙ ap after_split (split_colon-append user password n)

same_password_iff :
    (password : Text) (o : Option Text) → (same_password password o ≡ true) ↔ (o ≡ some password)
same_password_iff password none = ((λ h. cc), (λ h. cc))
same_password_iff password (some stored) = (
  (λ h. ap some (sym ((text_same_iff password stored).0 h))),
  (λ h. (text_same_iff password stored).1 (cc h)),
)

-- A client that sends a user's name, without a colon, and a password is let in under that name
-- exactly where this is the user's password, and is refused for its credentials otherwise.
pub authenticate-basic_header :
    (ba : BasicAuth) (user password : Text)
    → AreBytes (user ++ 58 ∷ password)
    → All (λ c. c ≢ 58) user
    → let answer = authenticate ba (basic_header user password) in
      (lookup user ba.users ≡ some password → answer ≡ granted user)
      × (lookup user ba.users ≢ some password → answer ≡ denied invalid_credentials)
unfolding authenticate validate_credentials
authenticate-basic_header ba user password b n =
    let parsed = ap (after_parse ba) (parse_basic_auth_header user password b n) in
    let (to, from) = same_password_iff password (lookup user ba.users) in
    (
      (λ h. parsed ∙ rw (from h) refl),
      (λ h. parsed ∙ (elim (Bool-cases (same_password password (lookup user ba.users))) [
        | inl same ↦ absurd (h (to same))
        | inr differs ↦ rw differs refl
      ])),
    )

-- The header's name and password, where the password is the user's.
abbrev pub Matches : BasicAuth → Text → Authenticated (Text × Text) → Type 0
Matches ba user (denied e) = ⊥
Matches ba user (granted (name, password)) = (name ≡ user) × (lookup user ba.users ≡ some password)

checked-Matches :
    (ba : BasicAuth) (user name password : Text) (b : Bool)
    → validate_credentials ba name password ≡ b
    → (if b then granted name else denied invalid_credentials) ≡ granted user
    → Matches ba user (granted (name, password))
unfolding validate_credentials
checked-Matches ba user name password true v h =
    let same : name ≡ user = cc h in
    (
      same,
      ap (λ u. lookup u ba.users) (sym same)
          ∙ (same_password_iff password (lookup name ba.users)).0 v,
    )
checked-Matches ba user name password false v h = cc h

after_parse-Matches :
    (ba : BasicAuth) (user : Text) (r : Authenticated (Text × Text))
    → after_parse ba r ≡ granted user
    → Matches ba user r
after_parse-Matches ba user (denied e) h = cc h
after_parse-Matches ba user (granted (name, password)) h =
    checked-Matches ba user name password (validate_credentials ba name password) refl h

removed-Matches :
    (ba : BasicAuth) (user : Text) (r : Authenticated (Text × Text))
    → Matches (remove_user user ba) user r
    → ⊥
unfolding remove_user
removed-Matches ba user (denied e) h = h
removed-Matches ba user (granted (name, password)) (n, h) = cc (
  lookup-delete user user ba.users
      ∙ ap (λ b. if b then none else lookup user ba.users) ((text_same_iff user user).1 refl),
  h,
)

-- Whoever is let in under a name sent a header that parses to this name and to the user's password;
-- after a user is removed, no header is let in under the name.
pub authenticate-Matches :
    (ba : BasicAuth) (user header : Text)
    → (authenticate ba header ≡ granted user → Matches ba user (parse_basic_auth header))
      × (authenticate (remove_user user ba) header ≢ granted user)
unfolding authenticate
authenticate-Matches ba user header = (
  after_parse-Matches ba user (parse_basic_auth header),
  (λ h.
      removed-Matches ba user (parse_basic_auth header)
        (after_parse-Matches (remove_user user ba) user (parse_basic_auth header) h)),
)
