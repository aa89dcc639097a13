-- ===== src/Lib.antt =====
-- gqueue is a service that registers events with their consumers, takes publications of events over
-- HTTP, and delivers each of them to the webhooks of the event's consumers, through Google Pub/Sub or
-- through asynq tasks on Redis. This library models its Go code.
--
-- The parts, in the order in which a publication meets them:
-- * Backoffice.antt (internal/app/backofficeapp): the API that registers, reads and removes events;
--   Event.antt (internal/domain/event.go, pkg/pubadapter/opts.go) is the data that it validates, and
--   Event/Url.antt the address of a webhook. Postgres.antt (internal/interstore/postgres_store.go)
--   keeps the events as rows of one table, and MemStore.antt (internal/interstore/mem_store.go,
--   cmd/setup/memstore/task_sync.go) is the copy in memory that the publishers read. Registry.antt is
--   the two together, over any sequence of registrations, removals and refreshes, with the abstract
--   view of them as functions of an event's name.
-- * The list of the events is read through a filter: QueryParser.antt (pkg/queryparser/parser.go)
--   reads a query string into the fields of a struct, QueryParser/Fields.antt has the loop over the
--   fields and the defaults, Filters.antt (internal/domain/filters.go) is the one struct of the service
--   and the whole handler, and Postgres/Filtered.antt the statement that is made of it.
-- * Publisher.antt is the HTTP publisher of internal/app/pubsubapp and internal/app/taskapp: the two
--   packages have the same code but for the publication that they make of a consumer and the status
--   of success, which are its parameters. PubsubApp.antt and TaskApp.antt give them (`publication`,
--   `publisher_event`); TaskApp.antt also has Task.Publish of pkg/pubadapter/pub_sub_asynq.go, and
--   Publisher/Strategy.antt the choice of a publisher by the type of the queue (pkg/pubadapter/base.go).
-- * Delivery.antt (pkg/asyncadapter/gbubsub_adapter.go, pkg/pubadapter/pub_sub_google.go) is what
--   becomes of one message that a subscription hands out: acknowledged, refused, published again with
--   a higher retry count, or published to the dead letter topic. Topic.antt (pkg/topicutils) makes
--   the names of the topics, and Strconv.antt is what the counts need of Go's strconv.
-- * Webhook.antt is the consumer of requests, again one model of two packages, and Fetch.antt
--   (internal/fetcher, internal/notifyopt, pkg/httpclient) is the call that it makes.
--   PubsubApp/DeadLetters.antt is the consumer of dead letters. TaskApp/Dispatch.antt is the worker
--   of tasks (cmd/setup/task/consumer.go, pkg/asyncadapter/asynq_adapter.go).
-- * RawMsg.antt (internal/app/taskapp/msg_data.go) finds the JSON object in the stored message of an
--   archived task, and Archived.antt (internal/app/taskapp/archived_task.go) lists these tasks, on
--   CacheStore.antt (internal/app/taskapp/cache_store.go), which keeps them in Redis; the laws of its
--   commands are in CacheStore/Laws.antt.
-- * Subscriber.antt (cmd/setup/pubsub/consumer.go) creates the topics and subscriptions that are
--   missing before a subscriber receives.
-- * Storests.antt (internal/storests) keeps the metrics of publishers and consumers in Redis, which
--   is an interface of commands with its laws in Storests/Laws.antt, and Metric.antt
--   (internal/domain/metric.go) is the insights over them. Middleware.antt (cmd/setup/middleware) and
--   Auth.antt (pkg/auth) stand in front of the HTTP handlers; Http.antt is a response as the list of
--   calls that a handler makes of the response writer. HttpService.antt (cmd/setup/httpsvc,
--   cmd/setup/backoffice) is the servers with their chain of middleware.
-- * Process.antt (cmd/api/main.go, the Start of cmd/setup/pubsub and cmd/setup/task) is a run of the
--   process, Telemetry.antt (pkg/telemetry) the state behind its once, with the meter of a context and
--   the instruments in Telemetry/Context.antt and Telemetry/Instruments.antt, and Logs.antt
--   (pkg/logs/slog.go, internal/cfg/env.go, pkg/ctxlogger) the level and the default of the loggers.
-- * Common.antt has the library names that all parts use, lists, integers and maps, Float64.antt the
--   products of Go's floating point, and Samples.antt the data of the tests.
--
-- A handler becomes a function from what its environment answers to what it does: the answers of the
-- store, of the broker, of the HTTP client, of the JSON codec and of the clock are the fields of a
-- record (`PublisherEnv`, `ConsumerEnv`, `Env`, `FetchEnv`) or arguments, and the result lists the
-- calls in the order of the code, deferred calls included. A test on a call's result is a helper by
-- clauses (`after_publish`, `after_validate`, and so on). Errors are values: `none` is Go's nil error.
-- Goroutines that share state meet only in the memory store, whose maps are replaced as a whole; a
-- run of the service is therefore a sequence of loads.
--
-- Texts are sequences of characters where the code compares or joins them, and lists of bytes where
-- it walks bytes (Auth, RawMsg). Maps are association lists; the nil map is `none` where the code
-- tells it from the empty one. Numbers are natural numbers or the integers of Common/Int.antt;
-- `strconv.Atoi` has its 64-bit range. Fuel is the number of deliveries that are looked at, in
-- Delivery/Retries.antt, where the limit of retries and one more is enough, since every delivery
-- that fails raises the retry count of its message or sends it to the dead letter topic, and in
-- Delivery/Life.antt, which also follows the redeliveries of refused messages: these need not end, and
-- what is proved of them holds of any number. In Float64.antt it is the number of digits that a
-- product loses, 41 at most, which is enough for 2^41 durations (Float64/Rounding.antt, grain_enough).
--
-- The SQL statements are read as operations over rows, with the constraints of deployment/tables.sql.
-- Durations of the metrics are whole numbers and percentages are kept as two totals; the place of a
-- percentile is computed as in float64 (Float64.antt). Only the list of events
-- has its statement as a text, since the filter is written into it; what the database answers to a
-- text is a parameter. Integers of a struct's fields have their width and wrap around
-- (QueryParser/Numbers.antt); floats are a parameter.
--
-- Not modelled: what is written to the logs, the metrics that a part records beside its work, the
-- reading of the environment variables, the MongoDB store, mocks and build tools.
pub mod Common
pub mod Strconv
pub mod Topic
pub mod Event
pub mod Delivery
pub mod Float64
pub mod Http
pub mod MemStore
pub mod Publisher
pub mod Fetch
pub mod Webhook
pub mod PubsubApp
pub mod Auth
pub mod TaskApp
pub mod RawMsg
pub mod Archived
pub mod Metric
pub mod Postgres
pub mod QueryParser
pub mod Filters
pub mod Registry
pub mod CacheStore
pub mod Telemetry
pub mod Logs
pub mod Process
pub mod HttpService
pub mod Storests
pub mod Subscriber
pub mod Backoffice
pub mod Middleware
pub mod Samples
