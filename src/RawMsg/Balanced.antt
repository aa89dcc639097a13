-- ===== src/RawMsg/Balanced.antt =====
-- The object that `extract_json` finds.
use gqueue.Common.{
  ℕ, suc, ◌≤◌, ◌≡◌, ◌≢◌, refl, sym, ap, ◌∙◌, Option, none, some, List, [], ◌∷◌, ◌++◌, append_assoc,
  arith, All,
}
use gqueue.RawMsg.{
  Scan, outside, inside, open_brace, close_brace, quote, backslash, from_brace, step, behind, scan,
  scan_from, extract_json,
}

-- What may stand between the quotes of a JSON string: bytes that are neither a quote nor a backslash,
-- and pairs of a backslash and any byte.
pub data IsText : List ℕ → Type 0 where
  no_text : IsText []
  char : {t : List ℕ} (c : ℕ) → c ≢ quote → c ≢ backslash → IsText t → IsText (c ∷ t)
  pair : {t : List ℕ} (c : ℕ) → IsText t → IsText (backslash ∷ c ∷ t)

-- What may stand between the braces of an object: strings, objects, and bytes that are neither a
-- brace nor a quote.
pub data IsBody : List ℕ → Type 0 where
  no_body : IsBody []
  plain :
      {s : List ℕ} (c : ℕ)
      → c ≢ open_brace
      → c ≢ close_brace
      → c ≢ quote
      → IsBody s
      → IsBody (c ∷ s)
  string : {t s : List ℕ} → IsText t → IsBody s → IsBody (quote ∷ (t ++ quote ∷ s))
  object : {b s : List ℕ} → IsBody b → IsBody s → IsBody (open_brace ∷ (b ++ close_brace ∷ s))

abbrev prepend : List ℕ → Option (List ℕ) → Option (List ℕ)
prepend xs none = none
prepend xs (some t) = some (xs ++ t)

prepend-append :
    (xs ys : List ℕ) (o : Option (List ℕ)) → prepend xs (prepend ys o) ≡ prepend (xs ++ ys) o
prepend-append xs ys none = refl
prepend-append xs ys (some t) = ap some (sym (append_assoc xs ys t))

behind-prepend :
    (c : ℕ) (xs : List ℕ) (o : Option (List ℕ)) → behind c (prepend xs o) ≡ prepend (c ∷ xs) o
behind-prepend c xs none = refl
behind-prepend c xs (some t) = refl

prepend-behind :
    (c : ℕ) (xs : List ℕ) (o : Option (List ℕ)) → prepend xs (behind c o) ≡ prepend (xs ++ c ∷ []) o
prepend-behind c xs none = refl
prepend-behind c xs (some t) = ap some (sym (append_assoc xs (c ∷ []) t))

scan_on :
    (state next : Scan) (d e c : ℕ) (s : List ℕ)
    → step state d c ≡ some (next, e)
    → scan state d (c ∷ s) ≡ behind c (scan next e s)
unfolding scan
scan_on state next d e c s h = rw (h, scan) refl

step_char : (c d : ℕ) → c ≢ quote → c ≢ backslash → step inside d c ≡ some (inside, d)
unfolding step
step_char c d q b = ground (arith, q, b)

step_plain :
    (c d : ℕ) → c ≢ open_brace → c ≢ close_brace → c ≢ quote → step outside d c ≡ some (outside, d)
unfolding step
step_plain c d o p q = ground (arith, o, p, q)

step_close : (d : ℕ) → 1 ≤ d → step outside (suc d) close_brace ≡ some (outside, d)
unfolding step
step_close d h = ground arith

scan-text :
    (t rest : List ℕ) (d : ℕ)
    → IsText t
    → scan inside d (t ++ rest) ≡ prepend t (scan inside d rest)
unfolding scan step
scan-text _ rest d no_text = same (scan inside d rest)
  where
    same : (o : Option (List ℕ)) → o ≡ prepend [] o
    same none = refl
    same (some t) = refl
scan-text _ rest d (char {t} c q b h) =
    scan_on inside inside d d c (t ++ rest) (step_char c d q b)
    ∙ ap (behind c) (scan-text t rest d h)
    ∙ behind-prepend c t (scan inside d rest)
scan-text _ rest d (pair {t} c h) =
    ap (λ o. behind backslash (behind c o)) (scan-text t rest d h)
    ∙ ap (behind backslash) (behind-prepend c t (scan inside d rest))
    ∙ behind-prepend backslash (c ∷ t) (scan inside d rest)

-- A body, an ending byte and what follows, as the loop meets them.
abbrev within : List ℕ → ℕ → List ℕ → List ℕ
within b c s = b ++ c ∷ s

scan-body :
    (b rest : List ℕ) (d : ℕ)
    → 1 ≤ d
    → IsBody b
    → scan outside d (b ++ rest) ≡ prepend b (scan outside d rest)
scan-body _ rest d n no_body = same (scan outside d rest)
  where
    same : (o : Option (List ℕ)) → o ≡ prepend [] o
    same none = refl
    same (some t) = refl
scan-body _ rest d n (plain {s} c o p q h) =
    scan_on outside outside d d c (s ++ rest) (step_plain c d o p q)
    ∙ ap (behind c) (scan-body s rest d n h)
    ∙ behind-prepend c s (scan outside d rest)
scan-body _ rest d n (string {t} {s} k h) =
    scan_on outside inside d d quote ((t ++ quote ∷ s) ++ rest) (unfold step in refl)
    ∙ ap (λ l. behind quote (scan inside d l)) (append_assoc t (quote ∷ s) rest)
    ∙ ap (behind quote) (scan-text t (quote ∷ (s ++ rest)) d k)
    ∙ ap (λ o. behind quote (prepend t o))
        (scan_on inside outside d d quote (s ++ rest) (unfold step in refl)
          ∙ ap (behind quote) (scan-body s rest d n h)
          ∙ behind-prepend quote s (scan outside d rest))
    ∙ ap (behind quote) (prepend-append t (quote ∷ s) (scan outside d rest))
    ∙ behind-prepend quote (t ++ quote ∷ s) (scan outside d rest)
scan-body _ rest d n (object {b} {s} k h) =
    scan_on outside outside d (suc d) open_brace ((b ++ close_brace ∷ s) ++ rest)
      (unfold step in refl)
    ∙ ap (λ l. behind open_brace (scan outside (suc d) l)) (append_assoc b (close_brace ∷ s) rest)
    ∙ ap (behind open_brace) (scan-body b (close_brace ∷ (s ++ rest)) (suc d) (omega arith) k)
    ∙ ap (λ o. behind open_brace (prepend b o))
        (scan_on outside outside (suc d) d close_brace (s ++ rest) (step_close d n)
          ∙ ap (behind close_brace) (scan-body s rest d n h)
          ∙ behind-prepend close_brace s (scan outside d rest))
    ∙ ap (behind open_brace) (prepend-append b (close_brace ∷ s) (scan outside d rest))
    ∙ behind-prepend open_brace (b ++ close_brace ∷ s) (scan outside d rest)

from_brace-append :
    (prefix s : List ℕ)
    → All (λ c. c ≢ open_brace) prefix
    → from_brace (prefix ++ open_brace ∷ s) ≡ some (open_brace ∷ s)
unfolding from_brace
from_brace-append [] s h = refl
from_brace-append (c ∷ prefix) s (n, h) = ground (arith, n, from_brace-append prefix s h)

-- Between any text without an opening brace and any other text, a balanced object is found, from its
-- first brace to the one that closes it: braces in its strings, and escaped quotes in them, do not
-- count.
pub extract_json-object :
    (prefix body suffix : List ℕ)
    → All (λ c. c ≢ open_brace) prefix
    → IsBody body
    → extract_json (prefix ++ open_brace ∷ (body ++ close_brace ∷ suffix))
      ≡ open_brace ∷ (body ++ close_brace ∷ [])
unfolding extract_json
extract_json-object prefix body suffix h b =
    let found : scan outside 0 (open_brace ∷ (body ++ close_brace ∷ suffix))
        ≡ some (open_brace ∷ (body ++ close_brace ∷ [])) =
      scan_on outside outside 0 1 open_brace (body ++ close_brace ∷ suffix) (unfold step in refl)
      ∙ ap (behind open_brace) (scan-body body (close_brace ∷ suffix) 1 (omega arith) b)
      ∙ unfold scan step in refl in
    ap scan_from (from_brace-append prefix (body ++ close_brace ∷ suffix) h)
    ∙ ap (λ o. elim o [ none ↦ [] | some t ↦ t ]) found
