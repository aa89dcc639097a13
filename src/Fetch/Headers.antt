-- ===== src/Fetch/Headers.antt =====
-- What clienthttp is asked to send for a webhook call.
use gqueue.Common.{
  String, Bool, true, false, ◌==◌, string_Eq, Option, none, some, List, [], ◌∷◌, Dict, lookup,
  insert, lookup-insert, if◌then◌else◌, or_zero, ◌≡◌, refl, ◌∙◌, ap, inl, inr, Bool-cases,
}
use gqueue.Event.{Consumer}
use gqueue.Event.Url.{get_url}
use gqueue.Fetch.{
  Kind, Request, Reply, status, broken, FetchEnv, fetch, notify, after_send, notify_settings,
  client_settings,
}
use gqueue.Fetch.Transport.{
  first_value, first_values, header_option, Do, round_trip, set_all, http_request,
}

abbrev first_of : Option (List String) → Option String
first_of none = none
first_of (some vs) = some (first_value vs)

lookup-first_values :
    (j : String) (header : Dict String (List String))
    → lookup j (first_values header) ≡ first_of (lookup j header)
unfolding first_values lookup
lookup-first_values j [] = refl
lookup-first_values j ((k, vs) ∷ header) = elim (Bool-cases (k == j)) [
  | inl e ↦ rw (lookup-insert k j (first_value vs) (first_values header), e) refl
  | inr e ↦
      rw (lookup-insert k j (first_value vs) (first_values header), e)
        (lookup-first_values j header)
]

module _ (canonical : String → String) where
  -- The last value that was set under a canonical key.
  abbrev pub last_set : String → Dict String String → Option String
  last_set j [] = none
  last_set j ((k, v) ∷ calls) = elim (last_set j calls) [
    | some later ↦ some later
    | none ↦ if canonical k == j then some v else none
  ]

  abbrev or : Option String → Option String → Option String
  or (some v) o = some v
  or none o = o

  or-last :
      (o : Option String) (b : Bool) (v : String) (below : Option String)
      → or o (if b then some v else below)
        ≡ or (elim o [ some later ↦ some later | none ↦ if b then some v else none ]) below
  or-last (some later) b v below = refl
  or-last none true v below = refl
  or-last none false v below = refl

  lookup-set_all :
      (j : String) (calls : Dict String String) (header : Dict String (List String))
      → first_of (lookup j (set_all canonical calls header))
        ≡ or (last_set j calls) (first_of (lookup j header))
  unfolding set_all
  lookup-set_all j [] header = refl
  lookup-set_all j ((k, v) ∷ calls) header =
      lookup-set_all j calls (insert (canonical k) (v ∷ []) header)
      ∙ ap (or (last_set j calls)) (first_inserted j k v header)
      ∙ or-last (last_set j calls) (canonical k == j) v (first_of (lookup j header))
    where
      first_inserted :
          (j k v : String) (header : Dict String (List String))
          → first_of (lookup j (insert (canonical k) (v ∷ []) header))
            ≡ (if canonical k == j then some v else first_of (lookup j header))
      first_inserted j k v header = elim (Bool-cases (canonical k == j)) [
        | inl e ↦ rw (lookup-insert (canonical k) j (v ∷ []) header, e) refl
        | inr e ↦ rw (lookup-insert (canonical k) j (v ∷ []) header, e) refl
      ]

  or_none : (o : Option String) → or o none ≡ o
  or_none none = refl
  or_none (some v) = refl

  lookup-sent :
      (j : String) (calls : Dict String String)
      → lookup j (first_values (set_all canonical calls [])) ≡ last_set j calls
  unfolding lookup
  lookup-sent j calls =
      lookup-first_values j (set_all canonical calls [])
      ∙ lookup-set_all j calls []
      ∙ or_none (last_set j calls)

  or_zero-header_option : (hs : Dict String String) → or_zero [] (header_option hs) ≡ hs
  or_zero-header_option [] = refl
  or_zero-header_option (h ∷ hs) = refl

  requests-after_send : (req : Request) (r : Reply) → (after_send req r).requests ≡ req ∷ []
  requests-after_send req (status code) = refl
  requests-after_send req (broken err) = refl

  -- A webhook call whose content has a JSON text and whose URL can be called makes one request, which
  -- the audited client hands on as a POST to the consumer's URL with that text, and with each header
  -- as it was set last under its canonical name: the content type application/json in front of the
  -- call's headers.
  pub notify-sent :
      {D : Type 0} (env : FetchEnv D) (do_request : Do) (content : D) (headers : Dict String String)
      → (consumer : Consumer) (opt : Kind) (body : String) → env.marshal content ≡ some body
      → env.url_ok (get_url consumer) ≡ true
      → (req : Request) × (sent : Option (Dict String String)) × ((notify env content headers
            consumer opt).requests
          ≡ req ∷ [])
        × (round_trip do_request (http_request canonical req)
            ≡ do_request "POST" (get_url consumer) body sent)
        × ((j : String)
            → lookup j (or_zero [] sent)
              ≡ last_set j (("Content-Type", "application/json") ∷ headers))
  unfolding notify fetch round_trip http_request
  notify-sent env do_request content headers consumer opt body h u =
      let calls = ("Content-Type", "application/json") ∷ headers in
      let req : Request = record {
        url = get_url consumer;
        body = body;
        set_headers = calls;
        settings = client_settings (notify_settings opt);
      } in
      (
        req,
        header_option (first_values (set_all canonical calls [])),
        rw (h, u) (requests-after_send req (env.send req)),
        refl,
        (λ j.
            ap (lookup j) (or_zero-header_option (first_values (set_all canonical calls [])))
            ∙ lookup-sent j calls),
      )
