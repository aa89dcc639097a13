-- ===== src/Fetch.antt =====
-- internal/fetcher/notification.go and internal/notifyopt: the webhook call. The HTTP client settings
-- are those of pkg/httpclient.
pub mod Outcome
pub mod Transport
pub mod Headers
mod Tests
use gqueue.Common.{
  ℕ, ◌*◌, String, Bool, true, false, Option, none, some, List, [], ◌∷◌, ◌++◌, ltb, if◌then◌else◌,
  Dict,
}
use gqueue.Event.{Consumer}
use gqueue.Event.Url.{get_url}

-- notifyopt.Kind; any other text is `other`.
pub data Kind : Type 0 where
  default high_throughput long_running other : Kind

-- clienthttp's options, durations in nanoseconds.
pub data Setting : Type 0 where
  with_timeout with_idle_conn_timeout with_max_idle_conns with_max_idle_conns_per_host : ℕ → Setting

abbrev pub second : ℕ
second = 1000000000

abbrev pub high_throughput_settings : List Setting
high_throughput_settings =
    with_timeout (30 * second)
    ∷ with_max_idle_conns 100
    ∷ with_max_idle_conns_per_host 2
    ∷ with_idle_conn_timeout (90 * second)
    ∷ []

abbrev pub long_running_settings : List Setting
long_running_settings =
    with_timeout (300 * second)
    ∷ with_max_idle_conns 50
    ∷ with_max_idle_conns_per_host 2
    ∷ with_idle_conn_timeout (90 * second)
    ∷ []

-- The settings that `Notify` passes.
unfoldable pub notify_settings : Kind → List Setting
notify_settings high_throughput = high_throughput_settings
notify_settings long_running = long_running_settings
notify_settings default = high_throughput_settings
notify_settings other = high_throughput_settings

-- The settings of `NewHTTPClientWithLogging`, behind which it adds its auditor.
unfoldable pub client_settings : List Setting → List Setting
client_settings [] = high_throughput_settings
client_settings (s ∷ ss) = s ∷ ss

-- The POST request of `fetch`; `set_headers` are the calls of `req.Header.Set` in order.
pub record Request : Type 0 where
  pub url : String
  pub body : String
  pub set_headers : Dict String String
  pub settings : List Setting

-- The answer to a request: a status, or the client's error.
pub data Reply : Type 0 where
  status : ℕ → Reply
  broken : String → Reply

pub data FetchError : Type 0 where
  marshal_data create_request : FetchError
  post_request : String → FetchError
  unexpected_status : ℕ → FetchError

-- Where the client answers with a status, one request and its duration are counted.
pub record Fetched : Type 0 where
  pub error : Option FetchError
  pub requests : List Request
  pub counted : List ℕ

pub record FetchEnv (D : Type 0) : Type 0 where
  -- `json.Marshal`, `none` for its error
  pub marshal : D → Option String
  -- whether `http.NewRequestWithContext` takes the URL
  pub url_ok : String → Bool
  pub send : Request → Reply

abbrev pub check_status : ℕ → Option FetchError
check_status code = if ltb 299 code then some (unexpected_status code) else none

abbrev pub after_send : Request → Reply → Fetched
after_send req (broken err) = record {
  error = some (post_request err);
  requests = req ∷ [];
  counted = [];
}
after_send req (status code) = record {
  error = check_status code;
  requests = req ∷ [];
  counted = code ∷ [];
}

module _ {D : Type 0} (env : FetchEnv D) where
  abbrev pub after_marshal : String → Dict String String → List Setting → Option String → Fetched
  after_marshal url headers settings none = record {
    error = some marshal_data;
    requests = [];
    counted = [];
  }
  after_marshal url headers settings (some body) =
      let req : Request = record {
        url = url;
        body = body;
        set_headers = ("Content-Type", "application/json") ∷ headers;
        settings = client_settings settings;
      } in
      if env.url_ok url
      then after_send req (env.send req)
      else record { error = some create_request; requests = []; counted = [] }

  -- fetch
  unfoldable pub fetch : String → D → Dict String String → List Setting → Fetched
  fetch url content headers settings = after_marshal url headers settings (env.marshal content)

  -- Notification.Notify
  unfoldable pub notify : D → Dict String String → Consumer → Kind → Fetched
  unfolding fetch
  notify content headers consumer opt =
      fetch (get_url consumer) content headers (notify_settings opt)
