-- ===== src/Samples.antt =====
-- The test data that the modules of tests share.
use gqueue.Common.{ℕ, zero, suc, String, true, false, Option, none, some, [], ◌∷◌, pos}
use gqueue.Event.{Consumer, Opt, Event}
use gqueue.MemStore.{found}
use gqueue.Delivery.{Attributes, Message, elapsed, cancelled, Env}
use gqueue.Publisher.{Metadata, InternalPayload, RequestPayload, Publication, PublisherEnv}
use gqueue.Webhook.{ConsumerEnv}

abbrev pub billing : Consumer
billing = record {
  service_name = "billing";
  base_url = "http://billing";
  path = "/pay";
  headers = some (("X-Key", "b") ∷ []);
}

abbrev pub mailing : Consumer
mailing = record {
  service_name = "mailing";
  base_url = "http://mail";
  path = "send";
  headers = none;
}

abbrev pub opt : Opt
opt = record {
  deadline = none;
  retention = pos 0;
  unique_ttl = pos 60;
  schedule_in = pos 0;
  max_retries = pos 2;
  wq_type = "low_latency";
}

abbrev pub payment : Event
payment = record {
  id = "1";
  name = "payment.charged";
  service_name = "shop";
  state = "active";
  type = "external";
  option = opt;
  consumers = billing ∷ mailing ∷ [];
}

abbrev pub refund : Event
refund = record payment { id = "2"; name = "payment.refunded"; consumers = mailing ∷ [] }

-- A message as the publisher sends it, on topic "t", with a limit of 2 retries.
abbrev pub attributes : Attributes
attributes = ("topic", "t") ∷ ("max_retries", "2") ∷ []

abbrev pub message : Message
message = record { id = "m"; body = "{}"; attributes = some attributes }

-- A handler that fails on every body and a broker that takes every publication.
abbrev pub failing : Env
failing = record {
  handler = λ body. some "refused";
  publishes = λ topic m. true;
  wakes = elapsed;
  done = false;
}

abbrev pub interrupted : Env
interrupted = record failing { wakes = cancelled; done = true }

abbrev pub metadata : Metadata
metadata = record {
  source = "shop";
  version = "1";
  environment = "test";
  headers = some (("X-Key", "a") ∷ ("X-Id", "7") ∷ []);
}

-- JSON objects are texts here.
abbrev pub payload : InternalPayload String
payload = record { event_name = "payment.charged"; content = some "{}"; metadata = metadata }

-- A broker that refuses every publication behind the first.
abbrev pub second_refused : ℕ → Publication String → Option String
second_refused zero p = none
second_refused (suc i) p = some "unavailable"

abbrev pub publisher_env : PublisherEnv String
publisher_env = record {
  decoded = some payload;
  decode_error = "";
  get_event = λ name. found payment;
  publish = second_refused;
  now = λ i. 5000000;
  started = 1000000;
  finished = 9000000;
}

abbrev pub request : RequestPayload String
request = record {
  event_name = "payment.charged";
  consumer = billing;
  content = some "{}";
  headers = some (("X-Key", "a") ∷ ("X-Id", "7") ∷ []);
  published_at = 5;
}

abbrev pub consumer_env : ConsumerEnv String
consumer_env = record {
  payload = some request;
  notify = λ n. none;
  started = 1000000;
  finished = 9000000;
}
