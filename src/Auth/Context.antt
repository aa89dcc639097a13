-- ===== src/Auth/Context.antt =====
-- pkg/auth/ctx.go: the user's name in the context, as Middleware of pkg/auth/basic.go puts it there.
use gqueue.Common.{
  String, Bool, true, false, ◌==◌, string_Eq, Option, none, some, List, [], ◌∷◌, if◌then◌else◌, ◌≡◌,
  refl,
}
use gqueue.Auth.Bytes.{Text}
use gqueue.Auth.{
  BasicAuth, Authenticated, granted, denied, authenticate, middleware, unauthorized, pass_on,
}
use gqueue.Http.{WriterCall}

-- The key of this package, and any other, which is of another type.
pub data Key : Type 0 where
  user_context_key : Key
  other_key : String → Key

-- A value of type string, or of any other type
pub data Value : Type 0 where
  text : Text → Value
  other_value : String → Value

-- context.Context: the values that were put in, the last one first.
abbrev pub Context : Type 0
Context = List (Key × Value)

abbrev pub same_key : Key → Key → Bool
same_key user_context_key user_context_key = true
same_key (other_key a) (other_key b) = a == b
same_key k l = false

-- ctx.Value
unfoldable pub value : Key → Context → Option Value
value key [] = none
value key ((k, v) ∷ ctx) = if same_key k key then some v else value key ctx

-- WithUser
unfoldable pub with_user : Context → Text → Context
with_user ctx username = (user_context_key, text username) ∷ ctx

abbrev pub as_text : Option Value → Option Text
as_text none = none
as_text (some (text s)) = some s
as_text (some (other_value s)) = none

-- UserFromContext; `none` is "" and false.
unfoldable pub user_from_context : Context → Option Text
unfolding value
user_from_context ctx = as_text (value user_context_key ctx)

-- MustUserFromContext; `none` is the panic.
unfoldable pub must_user_from_context : Context → Option Text
unfolding user_from_context
must_user_from_context ctx = user_from_context ctx

-- HasUser
unfoldable pub has_user : Context → Bool
unfolding user_from_context
has_user ctx = elim (user_from_context ctx) [ none ↦ false | some u ↦ true ]

-- Middleware on a request with a context: the next handler has that context with the user.
unfoldable pub middleware_with_context :
    BasicAuth → (Context → List WriterCall) → Context → Text → List WriterCall
unfolding middleware with_user
middleware_with_context ba next ctx auth_header =
    middleware ba (λ username. next (with_user ctx username)) auth_header

-- The handler ran in a context that has this user, and every other value as before.
abbrev pub RanFor : Text → Context → (Context → List WriterCall) → List WriterCall → Type 0
RanFor user before next calls =
    (ctx : Context) × (calls ≡ next ctx)
    × (must_user_from_context ctx ≡ some user)
    × (has_user ctx ≡ true)
    × ((k : String) → value (other_key k) ctx ≡ value (other_key k) before)

abbrev pub Outcome :
    Authenticated Text → Context → (Context → List WriterCall) → List WriterCall → Type 0
Outcome (denied e) before next calls = calls ≡ unauthorized
Outcome (granted user) before next calls = RanFor user before next calls

pass_on-Outcome :
    (r : Authenticated Text) (next : Context → List WriterCall) (ctx : Context)
    → Outcome r ctx next (pass_on (λ username. next (with_user ctx username)) r)
unfolding with_user value user_from_context must_user_from_context has_user
pass_on-Outcome (denied e) next ctx = refl
pass_on-Outcome (granted user) next ctx =
    ((user_context_key, text user) ∷ ctx, refl, refl, refl, (λ k. refl))

-- Behind the middleware a handler runs exactly for a header that is granted, in a context from which
-- it reads the user that was granted and every other value of the request; any other header is
-- answered with 401 alone.
pub middleware_with_context-Outcome :
    (ba : BasicAuth) (next : Context → List WriterCall) (ctx : Context) (auth_header : Text)
    → Outcome
        (authenticate ba auth_header)
        ctx
        next
        (middleware_with_context ba next ctx auth_header)
unfolding middleware_with_context middleware
middleware_with_context-Outcome ba next ctx auth_header =
    pass_on-Outcome (authenticate ba auth_header) next ctx
