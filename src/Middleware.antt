-- ===== src/Middleware.antt =====
-- cmd/setup/middleware/middleware.go. The logger and the meter that are put into the context are left
-- out.
pub mod Cors
pub mod Recorder
mod Tests
use gqueue.Common.{
  ℕ, zero, suc, String, Bool, true, false, ◌||◌, ◌==◌, string_Eq, List, [], ◌∷◌, ◌++◌, length,
  nat_eq, ltb, if◌then◌else◌, ℤ, pos, negsuc, is_positive, Option, none, some,
}
use gqueue.Strconv.{itoa}
use gqueue.Topic.{append}
use gqueue.Http.{WriterCall, set_header, write_header, write}

pub record CorsConfig : Type 0 where
  pub allowed_origins : List String
  pub allowed_methods : List String
  pub allowed_headers : List String
  pub exposed_headers : List String
  pub allow_credentials : Bool
  pub max_age : ℤ

-- DefaultCORSConfig
abbrev pub default_cors_config : CorsConfig
default_cors_config = record {
  allowed_origins = "*" ∷ [];
  allowed_methods = "GET" ∷ "PATCH" ∷ "POST" ∷ "PUT" ∷ "DELETE" ∷ "OPTIONS" ∷ [];
  allowed_headers = "Content-Type" ∷ "Authorization" ∷ "X-Requested-With" ∷ [];
  exposed_headers = [];
  allow_credentials = false;
  max_age = pos 86400;
}

-- slices.Contains
unfoldable pub contains : List String → String → Bool
contains [] s = false
contains (x ∷ xs) s = x == s || contains xs s

-- The loops that join names with ", ".
unfoldable pub join_names : List String → String
join_names [] = ""
join_names (x ∷ []) = x
join_names (x ∷ y ∷ xs) = append x (append ", " (join_names (y ∷ xs)))

abbrev pub is_wildcard : List String → Bool
is_wildcard [] = false
is_wildcard (o ∷ []) = o == "*"
is_wildcard (o ∷ p ∷ os) = false

-- The first header, which depends on the request's origin ("" where there is none).
unfoldable pub allow_origin : List String → String → List WriterCall
unfolding contains
allow_origin origins origin =
    if is_wildcard origins
    then set_header "Access-Control-Allow-Origin" "*" ∷ []
    else if origin == ""
    then []
    else if contains origins origin
    then set_header "Access-Control-Allow-Origin" origin ∷ []
    else []

abbrev pub names_header : String → List String → List WriterCall
names_header key [] = []
names_header key (x ∷ xs) = set_header key (join_names (x ∷ xs)) ∷ []

-- The headers that are set for every request.
unfoldable pub cors_headers : CorsConfig → String → List WriterCall
unfolding allow_origin join_names
cors_headers config origin =
    allow_origin config.allowed_origins origin
    ++ (names_header "Access-Control-Allow-Methods" config.allowed_methods
        ++ (names_header "Access-Control-Allow-Headers" config.allowed_headers
            ++ (names_header "Access-Control-Expose-Headers" config.exposed_headers
                ++ ((if config.allow_credentials
                      then set_header "Access-Control-Allow-Credentials" "true" ∷ []
                      else [])
                    ++ (if is_positive config.max_age
                        then set_header "Access-Control-Max-Age" (itoa config.max_age) ∷ []
                        else [])))))

-- CORSMiddlewareWithConfig over the calls that the next handler makes.
unfoldable pub cors_middleware_with_config :
    CorsConfig → String → String → List WriterCall → List WriterCall
unfolding cors_headers
cors_middleware_with_config config method origin next =
    if method == "OPTIONS"
    then cors_headers config origin ++ write_header 204 ∷ []
    else cors_headers config origin ++ set_header "Content-Type" "application/json" ∷ next

-- CORSMiddleware
unfoldable pub cors_middleware : String → String → List WriterCall → List WriterCall
unfolding cors_middleware_with_config
cors_middleware = cors_middleware_with_config default_cors_config

-- The status of a statusRecorder after some calls, from the one it has.
unfoldable pub recorded_status : ℕ → List WriterCall → ℕ
recorded_status code [] = code
recorded_status code (write_header next ∷ rest) = recorded_status next rest
recorded_status code (set_header k v ∷ rest) = recorded_status code rest
recorded_status code (write body ∷ rest) = recorded_status code rest

-- The attributes of one request in the two instruments; the duration is in nanoseconds.
pub record HttpMetric : Type 0 where
  pub method : String
  pub route : String
  pub response_code : ℕ
  pub service_name : String
  pub duration : ℕ

-- MetricsMiddleware: the client's calls are the handler's, and the metric that is recorded.
unfoldable pub metrics_middleware :
    String → String → String → ℕ → List WriterCall → Option HttpMetric
unfolding recorded_status
metrics_middleware service_name path method duration calls =
    if path == "/metrics" || path == "/health"
    then none
    else some (record {
      method = method;
      route = path;
      response_code = recorded_status 200 calls;
      service_name = service_name;
      duration = duration;
    })

-- LoggerMiddleware: the type of the content is set before the handler runs.
unfoldable pub logger_middleware : List WriterCall → List WriterCall
logger_middleware next = set_header "Content-Type" "application/json" ∷ next

-- What AsynqMetrics does to its three counters.
pub data TaskCount : Type 0 where
  increment_processing decrement_processing count_failure count_success : TaskCount

-- AsynqMetrics around a handler that returns an error or nil: its counts and its result.
unfoldable pub asynq_metrics : Option String → List TaskCount × Option String
asynq_metrics (some err) = (
  TaskCount.increment_processing ∷ TaskCount.count_failure ∷ TaskCount.decrement_processing ∷ [],
  some err,
)
asynq_metrics none = (
  TaskCount.increment_processing ∷ TaskCount.count_success ∷ TaskCount.decrement_processing ∷ [],
  none,
)

-- The lines that AsynqLogger writes
pub data LogLine : Type 0 where
  info_line : String → LogLine
  error_line : String → String → LogLine

-- AsynqLogger around a handler that returns an error or nil: its lines and its result.
unfoldable pub asynq_logger : Option String → List LogLine × Option String
asynq_logger (some err) =
    (info_line "Start processing" ∷ error_line "Error processing task" err ∷ [], some err)
asynq_logger none = (info_line "Start processing" ∷ info_line "Finished processing" ∷ [], none)
