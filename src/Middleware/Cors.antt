-- ===== src/Middleware/Cors.antt =====
-- Which origins CORS lets in, and what becomes of a preflight request.
use gqueue.Common.{
  String, Bool, true, false, ◌≡◌, ◌≢◌, ◌↔◌, ◌⊎◌, inl, inr, refl, ◌==◌, string_Eq, List, [], ◌∷◌,
  ◌++◌, if◌then◌else◌, is_positive, Bool-cases, arith, All, All-append,
}
use gqueue.Http.{WriterCall, set_header, write_header, write, client_status}
use gqueue.Middleware.{
  CorsConfig, contains, is_wildcard, allow_origin, names_header, cors_headers,
  cors_middleware_with_config,
}

-- The call sets a header, and only that.
abbrev IsSetHeader : WriterCall → Type 0
IsSetHeader (set_header k v) = Unit
IsSetHeader (write_header code) = ⊥
IsSetHeader (write body) = ⊥

client_status-headers :
    (hs rest : List WriterCall)
    → All IsSetHeader hs
    → client_status (hs ++ rest) ≡ client_status rest
unfolding client_status
client_status-headers [] rest h = refl
client_status-headers (set_header k v ∷ hs) rest (_, h) = client_status-headers hs rest h
client_status-headers (write_header code ∷ hs) rest (b, h) = elim b [ ]
client_status-headers (write body ∷ hs) rest (b, h) = elim b [ ]

names_header-IsSetHeader : (key : String) (xs : List String) → All IsSetHeader (names_header key xs)
names_header-IsSetHeader key [] = tt
names_header-IsSetHeader key (x ∷ xs) = (tt, tt)

header_if : (b : Bool) (k v : String) → All IsSetHeader (if b then set_header k v ∷ [] else [])
header_if true k v = (tt, tt)
header_if false k v = tt

allow_origin-IsSetHeader :
    (origins : List String) (origin : String) → All IsSetHeader (allow_origin origins origin)
unfolding allow_origin
allow_origin-IsSetHeader origins origin = elim (Bool-cases (is_wildcard origins)) [
  | inl all ↦ rw all (tt, tt)
  | inr some_origins ↦ elim (Bool-cases (origin == "")) [
    | inl no_origin ↦ rw (some_origins, no_origin) tt
    | inr has_origin ↦ rw (some_origins, has_origin) (header_if (contains origins origin) _ origin)
  ]
]

cors_headers-IsSetHeader :
    (config : CorsConfig) (origin : String) → All IsSetHeader (cors_headers config origin)
unfolding cors_headers
cors_headers-IsSetHeader config origin =
    All-append IsSetHeader _ _ (allow_origin-IsSetHeader config.allowed_origins origin) (
      All-append IsSetHeader _ _ (names_header-IsSetHeader _ config.allowed_methods) (
        All-append IsSetHeader _ _ (names_header-IsSetHeader _ config.allowed_headers) (
          All-append IsSetHeader _ _ (names_header-IsSetHeader _ config.exposed_headers) (
            All-append IsSetHeader _ _ (header_if config.allow_credentials _ _)
              (header_if (is_positive config.max_age) _ _)))))

-- The client sees 204 for a preflight request, whatever the next handler would do, and the next
-- handler's status for any other.
pub client_status-cors :
    (config : CorsConfig) (method origin : String) (next : List WriterCall)
    → client_status (cors_middleware_with_config config method origin next)
      ≡ (if method == "OPTIONS" then 204 else client_status next)
unfolding cors_middleware_with_config client_status
client_status-cors config method origin next = elim (Bool-cases (method == "OPTIONS")) [
  | inl preflight ↦ rw preflight (
      client_status-headers (cors_headers config origin) (write_header 204 ∷ [])
        (cors_headers-IsSetHeader config origin))
  | inr other ↦ rw other (
      client_status-headers (cors_headers config origin)
        (set_header "Content-Type" "application/json" ∷ next)
        (cors_headers-IsSetHeader config origin))
]

-- Membership in the configured origins.
abbrev pub IsAllowed : List String → String → Type 0
IsAllowed [] s = ⊥
IsAllowed (x ∷ xs) s = (x ≡ s) ⊎ IsAllowed xs s

contains_iff : (xs : List String) (s : String) → (contains xs s ≡ true) ↔ IsAllowed xs s
unfolding contains
contains_iff [] s = ((λ h. cc), (λ h. elim h [ ]))
contains_iff (x ∷ xs) s = ground (arith, string_Eq.same_iff x s, contains_iff xs s)

-- The header that lets an origin in has that origin as its value, and is set exactly where the
-- request has an origin that is in the list; where the list is the wildcard alone, it is the wildcard
-- for every request.
pub allow_origin_iff :
    (origins : List String) (origin : String)
    → (is_wildcard origins ≡ true
        → allow_origin origins origin ≡ set_header "Access-Control-Allow-Origin" "*" ∷ [])
      × (is_wildcard origins ≡ false
          → (allow_origin origins origin ≡ set_header "Access-Control-Allow-Origin" origin ∷ [])
            ↔ ((origin ≢ "") × IsAllowed origins origin))
      × (is_wildcard origins ≡ false
          → ((origin ≢ "") × IsAllowed origins origin → ⊥)
          → allow_origin origins origin ≡ [])
unfolding allow_origin
allow_origin_iff origins origin = (
  (λ w. rw w refl),
  (λ w. ground (arith, w, string_Eq.same_iff origin "", contains_iff origins origin)),
  (λ w n. ground (arith, w, n, string_Eq.same_iff origin "", contains_iff origins origin)),
)
