-- ===== src/RawMsg/Tests.antt =====
-- A message with a brace in a string.
use Prim.Native.String.{[], ◌∷◌}
use gqueue.Common.{code, String, ℕ, ◌≡◌, List, arith}
use gqueue.RawMsg.{extract_json, close_brace}
use gqueue.RawMsg.Balanced.{IsText, IsBody, extract_json-object}

-- The bytes of an ASCII text.
abbrev bytes : String → List ℕ
bytes [] = List.[]
bytes (c ∷ s) = List.◌∷◌ (code c) (bytes s)

-- "}" in quotes
abbrev body : List ℕ
body = bytes "\"}\""

body-IsBody : IsBody body
body-IsBody =
    IsBody.string
      (IsText.char close_brace (λ e. ground (arith, e)) (λ e. ground (arith, e)) IsText.no_text)
      IsBody.no_body

extract_json-object_example : extract_json (bytes "id {\"}\"} }") ≡ bytes "{\"}\"}"
extract_json-object_example =
    extract_json-object (bytes "id ") body (bytes " }")
      ((λ e. ground (arith, e)), ((λ e. ground (arith, e)), ((λ e. ground (arith, e)), tt)))
      body-IsBody
