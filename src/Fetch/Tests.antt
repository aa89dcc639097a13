-- ===== src/Fetch/Tests.antt =====
-- A webhook that answers 204.
use gqueue.Event.Url.{get_url}
use gqueue.Fetch.{Request}
use gqueue.Fetch.Transport.{
  Do, round_trip, http_request, Trip, deprecated_round_trip, new_http_client_with_logging,
}
use gqueue.Fetch.Headers.{last_set, notify-sent}
use gqueue.Common.{
  Option, ◌∷◌, Dict, lookup, or_zero, ok, string_Eq, refl, String, true, some, none, [], ◌≡◌, ◌↔◌,
}
use gqueue.Fetch.{FetchEnv, status, notify, long_running}
use gqueue.Fetch.Outcome.{IsTaken, notify_succeeds_iff}
use gqueue.Samples.{billing}

abbrev no_content : FetchEnv String
no_content = record { marshal = λ d. some d; url_ok = λ url. true; send = λ req. status 204 }

notify_succeeds_iff_example :
    ((notify no_content "{}" [] billing long_running).error ≡ none)
    ↔ IsTaken no_content [] billing long_running (some "{}")
notify_succeeds_iff_example = notify_succeeds_iff no_content "{}" [] billing long_running

-- One answer to every request.
abbrev answers : Do
answers method url body headers = ok (record { status_code = 204; header = []; body = "" })

abbrev as_written : String → String
as_written key = key

abbrev sent_headers : Dict String String
sent_headers = ("X-Key", "b") ∷ ("Content-Type", "text/plain") ∷ []

notify-sent_example :
    (req : Request) × (sent : Option (Dict String String)) × ((notify no_content "{}" sent_headers
        billing long_running).requests
      ≡ req ∷ [])
    × (round_trip answers (http_request as_written req)
        ≡ answers "POST" (get_url billing) "{}" sent)
    × ((j : String)
        → lookup j (or_zero [] sent)
          ≡ last_set as_written j (("Content-Type", "application/json") ∷ sent_headers))
notify-sent_example =
    notify-sent as_written no_content answers "{}" sent_headers billing long_running "{}" refl refl

-- Without a client of clienthttp the deprecated transport has none.
no_transport :
    deprecated_round_trip
      (new_http_client_with_logging (λ settings. some "bad settings") [])
      (λ settings. answers)
      (http_request as_written (record { url = ""; body = ""; set_headers = []; settings = [] }))
    ≡ Trip.nil_transport
unfolding new_http_client_with_logging deprecated_round_trip
no_transport = refl
