-- ===== src/Webhook/Tests.antt =====
-- One delivery of the sample request.
use gqueue.Common.{◌⊎◌, none, []}
use gqueue.Fetch.{high_throughput}
use gqueue.Webhook.{request_handle}
use gqueue.Webhook.Calls.{IsStopped, IsCalled, request_handle_outcome}
use gqueue.Samples.{consumer_env}

request_handle_outcome_example :
    let r = request_handle consumer_env (λ p. none) high_throughput (λ p. []) in
    IsStopped consumer_env (λ p. none) high_throughput (λ p. []) r
    ⊎ IsCalled consumer_env (λ p. none) high_throughput (λ p. []) r
request_handle_outcome_example =
    request_handle_outcome consumer_env (λ p. none) high_throughput (λ p. [])
