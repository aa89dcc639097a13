-- ===== src/Auth/Tests.antt =====
-- A user "a" with the password "b:".
use gqueue.Http.{WriterCall, write_header}
use gqueue.Auth.Context.{
  Context, other_key, other_value, has_user, Outcome, middleware_with_context,
  middleware_with_context-Outcome,
}
use gqueue.Common.{List, if◌then◌else◌, ◌≡◌, ◌≢◌, some, [], ◌∷◌, arith, lookup}
use gqueue.Auth.Bytes.{Text, text_Eq}
use gqueue.Auth.{BasicAuth, granted, denied, invalid_credentials, authenticate}
use gqueue.Auth.Granting.{basic_header, authenticate-basic_header}

abbrev user : Text
user = 97 ∷ []

abbrev password : Text
password = 98 ∷ 58 ∷ []

abbrev one_user : BasicAuth
one_user = record { users = (user, password) ∷ [] }

authenticate-basic_header_example :
    (lookup user one_user.users ≡ some password
      → authenticate one_user (basic_header user password) ≡ granted user)
    × (lookup user one_user.users ≢ some password
        → authenticate one_user (basic_header user password) ≡ denied invalid_credentials)
authenticate-basic_header_example =
    authenticate-basic_header one_user user password
      (omega arith, (omega arith, (omega arith, (omega arith, tt)))) ((λ e. ground (arith, e)), tt)

abbrev request_context : Context
request_context = (other_key "request_id", other_value "7") ∷ []

-- It answers 200 where it finds a user.
abbrev next : Context → List WriterCall
next ctx = if has_user ctx then write_header 200 ∷ [] else []

middleware_with_context-Outcome_example :
    Outcome
      (authenticate one_user (basic_header user password))
      request_context
      next
      (middleware_with_context one_user next request_context (basic_header user password))
middleware_with_context-Outcome_example =
    middleware_with_context-Outcome one_user next request_context (basic_header user password)
