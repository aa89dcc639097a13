-- ===== src/Auth.antt =====
-- pkg/auth: HTTP basic authentication. A text is the list of its bytes.
pub mod Base64
pub mod Bytes
pub mod Granting
pub mod Context
mod Tests
use gqueue.Common.{
  ℕ, Bool, true, false, ◌==◌, Option, none, some, List, [], ◌∷◌, ◌++◌, if◌then◌else◌, nat_eq, Dict,
  lookup, insert, delete,
}
use gqueue.Auth.Bytes.{Text, text_Eq, split_colon, strip_prefix, basic_prefix}
use gqueue.Auth.Base64.{decode_string}
use gqueue.Http.{WriterCall, set_header, http_error}

-- ErrMissingAuthHeader, ErrInvalidAuthHeader, ErrInvalidCredentials, ErrUnsupportedAuthType
pub data AuthError : Type 0 where
  missing_auth_header invalid_auth_header invalid_credentials unsupported_auth_type : AuthError

pub data Authenticated (A : Type 0) : Type 0 where
  granted : A → Authenticated A
  denied : AuthError → Authenticated A

-- BasicAuth: the password of each user.
pub record BasicAuth : Type 0 where
  pub users : Dict Text Text

-- NewBasicAuth: nil becomes the empty map.
abbrev pub new_basic_auth : Option (Dict Text Text) → BasicAuth
new_basic_auth none = record { users = [] }
new_basic_auth (some users) = record { users = users }

-- AddUser
unfoldable pub add_user : Text → Text → BasicAuth → BasicAuth
add_user username password ba = record ba { users = insert username password ba.users }

-- RemoveUser
unfoldable pub remove_user : Text → BasicAuth → BasicAuth
remove_user username ba = record ba { users = delete username ba.users }

abbrev pub same_password : Text → Option Text → Bool
same_password password none = false
same_password password (some stored_password) = password == stored_password

-- ValidateCredentials; subtle.ConstantTimeCompare is equality.
unfoldable pub validate_credentials : BasicAuth → Text → Text → Bool
validate_credentials ba username password = same_password password (lookup username ba.users)

abbrev pub after_split : Option (Text × Text) → Authenticated (Text × Text)
after_split none = denied invalid_auth_header
after_split (some parts) = granted parts

abbrev pub after_decode : Option Text → Authenticated (Text × Text)
after_decode none = denied invalid_auth_header
after_decode (some decoded) = after_split (split_colon decoded)

-- An empty encoded part is refused before it is decoded.
abbrev pub after_prefix : Option Text → Authenticated (Text × Text)
after_prefix none = denied unsupported_auth_type
after_prefix (some []) = denied invalid_auth_header
after_prefix (some (c ∷ encoded)) = after_decode (decode_string (c ∷ encoded))

-- ParseBasicAuth: the user's name and password.
unfoldable pub parse_basic_auth : Text → Authenticated (Text × Text)
unfolding strip_prefix split_colon decode_string
parse_basic_auth [] = denied missing_auth_header
parse_basic_auth (c ∷ header) = after_prefix (strip_prefix basic_prefix (c ∷ header))

abbrev pub after_parse : BasicAuth → Authenticated (Text × Text) → Authenticated Text
after_parse ba (denied e) = denied e
after_parse ba (granted (username, password)) =
    if validate_credentials ba username password
    then granted username
    else denied invalid_credentials

-- Authenticate
unfoldable pub authenticate : BasicAuth → Text → Authenticated Text
unfolding parse_basic_auth validate_credentials
authenticate ba auth_header = after_parse ba (parse_basic_auth auth_header)

-- What the client sees of a refusal.
abbrev pub unauthorized : List WriterCall
unauthorized =
    set_header "WWW-Authenticate" "Basic realm=\"Restricted\"" ∷ http_error "Unauthorized" 401

abbrev pub pass_on : (Text → List WriterCall) → Authenticated Text → List WriterCall
pass_on next (denied e) = unauthorized
pass_on next (granted username) = next username

-- Middleware: the next handler has the user's name in its context.
unfoldable pub middleware : BasicAuth → (Text → List WriterCall) → Text → List WriterCall
unfolding authenticate
middleware ba next auth_header = pass_on next (authenticate ba auth_header)

abbrev pub required : Authenticated Text → List WriterCall × Option Text
required (denied e) = (unauthorized, none)
required (granted username) = ([], some username)

-- RequireAuth: what it writes, and the user's name.
unfoldable pub require_auth : BasicAuth → Text → List WriterCall × Option Text
unfolding authenticate
require_auth ba auth_header = required (authenticate ba auth_header)
