-- ===== src/Middleware/Tests.antt =====
-- The middleware around handlers of the service.
use gqueue.Common.{String, ◌≡◌, some, List, [], ◌∷◌}
use gqueue.Http.{write_header, write, client_status}
use gqueue.Common.{ok}
use gqueue.Backoffice.{register_task_consumer_archived}
use gqueue.Middleware.{recorded_status}
use gqueue.Middleware.Recorder.{recorded_status-client_status, register_recorded}
use gqueue.Samples.{payment}

recorded_status-client_status_example :
    recorded_status 200 (write_header 204 ∷ write "" ∷ [])
    ≡ client_status (write_header 204 ∷ write "" ∷ [])
recorded_status-client_status_example =
    recorded_status-client_status (write_header 204 ∷ write "" ∷ []) tt

register_recorded_example :
    let calls = (register_task_consumer_archived (λ e. some "timeout") (ok payment)).calls in
    (recorded_status 200 calls ≡ 201) × (client_status calls ≡ 500)
register_recorded_example = register_recorded (λ e. some "timeout") payment

abbrev two_origins : List String
two_origins = "http://a" ∷ "http://b" ∷ []

abbrev second_origin : String
second_origin = "http://b"
