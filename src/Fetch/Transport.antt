-- ===== src/Fetch/Transport.antt =====
-- pkg/httpclient/client_http_with_logger.go: the client of the webhook calls, and how it hands a
-- request to the library clienthttp, which is a parameter. What the auditor logs is left out.
use gqueue.Common.{
  ℕ, ◌*◌, String, Option, none, some, List, [], ◌∷◌, Dict, insert, string_Eq, Try, ok, error,
}
use gqueue.Fetch.{Setting, second, Request, Reply, status, broken}

-- A header of net/http, with canonical keys; the body is none, or what reading it gives.
pub record HttpRequest : Type 0 where
  pub method : String
  pub url : String
  pub header : Dict String (List String)
  pub body : Option (Try String)

-- clienthttp's answer, and the http.Response that is made of it
pub record HttpResponse : Type 0 where
  pub status_code : ℕ
  pub header : Dict String (List String)
  pub body : String

-- Header.Get
abbrev pub first_value : List String → String
first_value [] = ""
first_value (v ∷ vs) = v

-- for key := range req.Header { headers[key] = req.Header.Get(key) }
unfoldable pub first_values : Dict String (List String) → Dict String String
first_values [] = []
first_values ((k, vs) ∷ header) = insert k (first_value vs) (first_values header)

-- The option WithHeaders is given only where there are headers.
abbrev pub header_option : Dict String String → Option (Dict String String)
header_option [] = none
header_option (h ∷ hs) = some (h ∷ hs)

-- clienthttp.Client.Do: method, URL, body ("" for none) and headers
abbrev pub Do : Type 0
Do = String → String → String → Option (Dict String String) → Try HttpResponse

module _ (do_request : Do) where
  abbrev pub after_body : HttpRequest → Try String → Try HttpResponse
  after_body req (error err) = error err
  after_body req (ok body) =
      do_request req.method req.url body (header_option (first_values req.header))

  -- ClientHTTPTransport.RoundTrip
  unfoldable pub round_trip : HttpRequest → Try HttpResponse
  unfolding first_values
  round_trip req = elim req.body [ none ↦ after_body req (ok "") | some b ↦ after_body req b ]

-- The http.Client of NewHTTPClientWithLogging: one with the transport, or the plain one with its
-- timeout where clienthttp has no client for the settings.
pub data HttpClient : Type 0 where
  audited : List Setting → HttpClient
  plain : ℕ → HttpClient

-- `new_client` is the error of clienthttp.New, `none` for nil.
unfoldable pub new_http_client_with_logging :
    (List Setting → Option String) → List Setting → HttpClient
new_http_client_with_logging new_client settings = elim (new_client settings) [
  | none ↦ audited settings
  | some err ↦ plain (30 * second)
]

-- What a request becomes: an answer, an error, or the panic on a nil Transport.
pub data Trip : Type 0 where
  answered : Try HttpResponse → Trip
  nil_transport : Trip

-- The deprecated HTTPClientTransport.RoundTrip, which delegates to the transport of a new client.
unfoldable pub deprecated_round_trip : HttpClient → (List Setting → Do) → HttpRequest → Trip
unfolding round_trip
deprecated_round_trip (audited settings) do_with req =
    Trip.answered (round_trip (do_with settings) req)
deprecated_round_trip (plain timeout) do_with req = Trip.nil_transport

module _ (canonical : String → String) where
  -- The calls of req.Header.Set, in order; `canonical` is textproto.CanonicalMIMEHeaderKey.
  unfoldable pub set_all :
      Dict String String → Dict String (List String) → Dict String (List String)
  set_all [] header = header
  set_all ((k, v) ∷ calls) header = set_all calls (insert (canonical k) (v ∷ []) header)

  -- The http.Request of a webhook call
  unfoldable pub http_request : Request → HttpRequest
  unfolding set_all
  http_request req = record {
    method = "POST";
    url = req.url;
    header = set_all req.set_headers [];
    body = some (ok req.body);
  }

  abbrev pub reply_of : Try HttpResponse → Reply
  reply_of (ok response) = status response.status_code
  reply_of (error err) = broken err

  -- client.Do of a webhook call; `plain_do` is Go's own transport.
  unfoldable pub send :
      (List Setting → Option String)
      → (List Setting → Do)
      → (HttpRequest → Try HttpResponse)
      → Request
      → Reply
  unfolding new_http_client_with_logging round_trip http_request
  send new_client do_with plain_do req =
      elim (new_http_client_with_logging new_client req.settings) [
        | audited settings ↦ reply_of (round_trip (do_with settings) (http_request req))
        | plain timeout ↦ reply_of (plain_do (http_request req))
      ]
