-- ===== src/HttpService/Recording.antt =====
-- What is recorded of a request to a server, beside what its client sees.
use gqueue.Common.{
  ℕ, String, Bool, true, false, ◌||◌, ◌==◌, string_Eq, none, some, List, if◌then◌else◌, ◌≡◌, refl,
  sym, ◌∙◌, ap,
}
use gqueue.Http.{WriterCall, client_status}
use gqueue.Publisher.{InternalPayload, Publication, PublisherEnv, publisher}
use gqueue.Event.{Event, Consumer}
use gqueue.Middleware.{
  cors_middleware, default_cors_config, metrics_middleware, logger_middleware, recorded_status,
}
use gqueue.Middleware.Cors.{client_status-cors}
use gqueue.Middleware.Recorder.{publisher-recorded_status}
use gqueue.HttpService.{Request, Server, serve}

abbrev pub is_silent : String → Bool
is_silent path = path == "/metrics" || path == "/health"

module _ (server : Server) (duration : ℕ) (mux : Request → List WriterCall) (r : Request) where
  -- The status behind CORS
  serve_status :
      client_status (serve server duration mux r).0
      ≡ (if r.method == "OPTIONS" then 204 else client_status (mux r))
  unfolding serve cors_middleware logger_middleware client_status
  serve_status =
      client_status-cors default_cors_config r.method r.origin (logger_middleware (mux r))

  serve_preflight : (r.method == "OPTIONS") ≡ true → (serve server duration mux r).1 ≡ none
  unfolding serve
  serve_preflight h = rw h refl

  serve_metric :
      (r.method == "OPTIONS") ≡ false
      → is_silent r.path ≡ false
      → (serve server duration mux r).1
        ≡ some (record {
          method = r.method;
          route = r.path;
          response_code = recorded_status 200 (mux r);
          service_name = server.service_name;
          duration = duration;
        })
  unfolding serve metrics_middleware logger_middleware recorded_status
  serve_metric h p = rw (h, p) refl

-- A preflight request is answered with 204 and is not recorded. Of any other request to the
-- publisher, but to /metrics and /health, one metric is recorded, with its method and path, the
-- name of the service, and the status that the client sees, which is the publisher's.
pub serve-publisher :
    {D : Type 0} (env : PublisherEnv D)
    → (make : InternalPayload D → Event → ℕ → Consumer → Publication D) (accepted : ℕ)
    → (server : Server) (duration : ℕ) (r : Request)
    → let calls = (publisher env make accepted).calls in
      let served = serve server duration (λ _. calls) r in
      ((r.method == "OPTIONS") ≡ true → (client_status served.0 ≡ 204) × (served.1 ≡ none))
      × ((r.method == "OPTIONS") ≡ false
          → is_silent r.path ≡ false
          → (client_status served.0 ≡ client_status calls)
            × (served.1
                ≡ some (record {
                  method = r.method;
                  route = r.path;
                  response_code = client_status served.0;
                  service_name = server.service_name;
                  duration = duration;
                })))
serve-publisher env make accepted server duration r =
    let calls = (publisher env make accepted).calls in
    (
      (λ h. (
        serve_status server duration (λ _. calls) r ∙ rw h refl,
        serve_preflight server duration (λ _. calls) r h,
      )),
      (λ h p.
          let seen = serve_status server duration (λ _. calls) r ∙ rw h refl in
          (
            seen,
            serve_metric server duration (λ _. calls) r h p
                ∙ ap
                    (λ code. some (record {
                      method = r.method;
                      route = r.path;
                      response_code = code;
                      service_name = server.service_name;
                      duration = duration;
                    }))
                    (publisher-recorded_status env make accepted ∙ sym seen),
          )),
    )
