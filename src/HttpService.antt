-- ===== src/HttpService.antt =====
-- cmd/setup/httpsvc/http_api.go and the Start of cmd/setup/backoffice/httpserver.go, with the routes of
-- cmd/setup/pubsub/http_api.go and cmd/setup/task/http_api.go: a server's routes and limits, and a
-- request on its way through the middleware. Go's mux and the listening are left out.
pub mod Recording
mod Tests
use gqueue.Common.{
  ℕ, ◌*◌, String, Bool, true, false, ◌==◌, string_Eq, Option, none, some, List, [], ◌∷◌, ◌++◌,
  if◌then◌else◌, ℤ,
}
use gqueue.Strconv.{itoa}
use gqueue.Topic.{append}
use gqueue.Http.{WriterCall, write_header, write}
use gqueue.Middleware.{HttpMetric, cors_middleware, metrics_middleware, logger_middleware}

pub record Request : Type 0 where
  pub method : String
  pub path : String
  -- the header Origin, "" where there is none
  pub origin : String

-- A pattern of the mux and its handler
pub record Route : Type 0 where
  pub pattern : String
  pub handle : Request → List WriterCall

-- GetHealthCheckHandler
abbrev pub health_check : Route
health_check = record {
  pattern = "GET /api/v1/ping";
  handle = λ r. write_header 200 ∷ write "pong" ∷ [];
}

-- http.Server; the timeouts are in milliseconds.
pub record Server : Type 0 where
  pub addr : String
  pub service_name : String
  pub routes : List Route
  pub read_timeout : ℕ
  pub write_timeout : ℕ
  pub idle_timeout : ℕ

-- ServerPort.String
unfoldable pub port_string : ℤ → String
unfolding itoa append
port_string p = append ":" (itoa p)

-- StartHttpServer, with telemetry's handler as it is at the start
unfoldable pub start_http_server : Route → List Route → String → String → Server
start_http_server metrics routes port service_name = record {
  addr = port;
  service_name = service_name;
  routes = metrics ∷ routes ++ health_check ∷ [];
  read_timeout = 10 * 1000;
  write_timeout = 200;
  idle_timeout = 60 * 1000;
}

-- The startHttpServer of the two services, on the route of their publisher and the configured port
unfoldable pub pubsub_server : Route → Route → ℤ → Server
unfolding start_http_server port_string
pubsub_server metrics publisher port =
    start_http_server metrics (publisher ∷ []) (port_string port) "pubsub"

unfoldable pub task_server : Route → Route → ℤ → Server
unfolding start_http_server port_string
task_server metrics publisher port =
    start_http_server metrics (publisher ∷ []) (port_string port) "task"

-- Start of the administration API, on its six routes
unfoldable pub backoffice_server : Route → List Route → ℤ → Server
unfolding port_string
backoffice_server metrics handlers port = record {
  addr = port_string port;
  service_name = "backoffice";
  routes = metrics ∷ health_check ∷ handlers;
  read_timeout = 10 * 1000;
  write_timeout = 15 * 1000;
  idle_timeout = 60 * 1000;
}

-- What the client is sent and what is recorded: CORS in front of the metrics in front of
-- the logger in front of the mux, none of which is reached where CORS answers a preflight request. The duration is the clock's.
unfoldable pub serve :
    Server → ℕ → (Request → List WriterCall) → Request → List WriterCall × Option HttpMetric
unfolding cors_middleware metrics_middleware logger_middleware
serve server duration mux r = (
  cors_middleware r.method r.origin (logger_middleware (mux r)),
  (if r.method == "OPTIONS"
      then none
      else metrics_middleware server.service_name r.path r.method duration
          (logger_middleware (mux r))),
)
