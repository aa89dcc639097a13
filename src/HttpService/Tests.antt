-- ===== src/HttpService/Tests.antt =====
-- A publication through the server of the Pub/Sub service.
use gqueue.Common.{false, true, none, some, [], List, ◌≡◌, refl, pos, ◌==◌, string_Eq}
use gqueue.Strconv.{itoa}
use gqueue.Topic.{append}
use gqueue.Http.{WriterCall, client_status}
use gqueue.Publisher.{publisher}
use gqueue.PubsubApp.{publication}
use gqueue.HttpService.{Request, Route, Server, pubsub_server, serve}
use gqueue.HttpService.Recording.{is_silent, serve-publisher}
use gqueue.Samples.{publisher_env}

abbrev post : Request
post = record { method = "POST"; path = "/api/v1/pubsub"; origin = "http://shop" }

abbrev calls : List WriterCall
calls = (publisher publisher_env (publication publisher_env) 201).calls

abbrev metrics : Route
metrics = record { pattern = "/metrics"; handle = λ r. [] }

abbrev publish : Route
publish = record { pattern = "POST /api/v1/pubsub"; handle = λ r. calls }

abbrev server : Server
server = pubsub_server metrics publish (pos 8082)

address : server.addr ≡ ":8082"
unfolding pubsub_server itoa append
address = refl

serve-publisher_example :
    let served = serve server 7 (λ _. calls) post in
    ((post.method == "OPTIONS") ≡ true → (client_status served.0 ≡ 204) × (served.1 ≡ none))
    × ((post.method == "OPTIONS") ≡ false
        → is_silent post.path ≡ false
        → (client_status served.0 ≡ client_status calls)
          × (served.1
              ≡ some (record {
                method = post.method;
                route = post.path;
                response_code = client_status served.0;
                service_name = server.service_name;
                duration = 7;
              })))
serve-publisher_example =
    serve-publisher publisher_env (publication publisher_env) 201 server 7 post
