-- ===== src/Event/Url.antt =====
-- `GetUrl` of internal/domain/event.go.
use Prim.Native.String.{[], ◌∷◌}
use gqueue.Common.{
  code, String, Bool, true, false, ◌≡◌, refl, ap, Option, Dict, nat_eq, if◌then◌else◌,
}
use gqueue.Event.{Consumer}

-- strings.TrimSuffix(s, "/")
unfoldable pub trim_slash_suffix : String → String
trim_slash_suffix [] = []
trim_slash_suffix (c ∷ []) = if nat_eq (code c) b'/' then [] else c ∷ []
trim_slash_suffix (c ∷ d ∷ s) = c ∷ trim_slash_suffix (d ∷ s)

-- strings.TrimPrefix(s, "/")
unfoldable pub trim_slash_prefix : String → String
trim_slash_prefix [] = []
trim_slash_prefix (c ∷ s) = if nat_eq (code c) b'/' then s else c ∷ s

-- a + "/" + b
unfoldable pub join_slash : String → String → String
join_slash [] b = "/" ∷ b
join_slash (c ∷ a) b = c ∷ join_slash a b

-- Consumer.GetUrl
unfoldable pub get_url : Consumer → String
unfolding trim_slash_suffix trim_slash_prefix join_slash
get_url t = join_slash (trim_slash_suffix t.base_url) (trim_slash_prefix t.path)

abbrev pub starts_slash : String → Bool
starts_slash [] = false
starts_slash (c ∷ s) = nat_eq (code c) b'/'

abbrev pub ends_slash : String → Bool
ends_slash [] = false
ends_slash (c ∷ []) = nat_eq (code c) b'/'
ends_slash (c ∷ d ∷ s) = ends_slash (d ∷ s)

-- s + "/"
abbrev pub with_slash : String → String
with_slash [] = "/"
with_slash (c ∷ s) = c ∷ with_slash s

trim_slash_suffix_same : (s : String) → ends_slash s ≡ false → trim_slash_suffix s ≡ s
unfolding trim_slash_suffix
trim_slash_suffix_same [] h = refl
trim_slash_suffix_same (c ∷ []) h = rw h refl
trim_slash_suffix_same (c ∷ d ∷ s) h = ap (λ t. c ∷ t) (trim_slash_suffix_same (d ∷ s) h)

trim_slash_suffix-with_slash : (s : String) → trim_slash_suffix (with_slash s) ≡ s
unfolding trim_slash_suffix
trim_slash_suffix-with_slash [] = refl
trim_slash_suffix-with_slash (c ∷ []) = refl
trim_slash_suffix-with_slash (c ∷ d ∷ s) = ap (λ t. c ∷ t) (trim_slash_suffix-with_slash (d ∷ s))

trim_slash_prefix_same : (s : String) → starts_slash s ≡ false → trim_slash_prefix s ≡ s
unfolding trim_slash_prefix
trim_slash_prefix_same [] h = refl
trim_slash_prefix_same (c ∷ s) h = rw h refl

trim_base :
    (s : Bool) (base : String)
    → ends_slash base ≡ false
    → trim_slash_suffix (if s then with_slash base else base) ≡ base
trim_base true base h = trim_slash_suffix-with_slash base
trim_base false base h = trim_slash_suffix_same base h

trim_path :
    (t : Bool) (path : String)
    → starts_slash path ≡ false
    → trim_slash_prefix (if t then "/" ∷ path else path) ≡ path
unfolding trim_slash_prefix
trim_path true path h = refl
trim_path false path h = trim_slash_prefix_same path h

-- A base URL with or without a slash at its end and a path with or without one at its start give
-- the same URL: the two parts with one slash between them.
pub get_url_one_slash :
    (service base path : String) (headers : Option (Dict String String)) (s t : Bool)
    → ends_slash base ≡ false
    → starts_slash path ≡ false
    → get_url (record {
      service_name = service;
      base_url = if s then with_slash base else base;
      path = if t then "/" ∷ path else path;
      headers = headers;
    })
      ≡ join_slash base path
unfolding get_url
get_url_one_slash service base path headers s t h k =
    rw (trim_base s base h, trim_path t path k) refl
