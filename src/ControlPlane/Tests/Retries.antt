-- ===== src/ControlPlane/Tests/Retries.antt =====
-- The theorems on retries, where the first attempt times out and the second gets a response.
use jenkins_qemu_provisioner.Prelude.{
  ℕ, ◌+◌, ◌<◌, String, ◌≡◌, refl, arith, ◌==◌, nat_eq, if◌then◌else◌,
}
use jenkins_qemu_provisioner.ControlPlane.World.{ok, raised}
use jenkins_qemu_provisioner.ControlPlane.Http.{
  RetryPolicy, Reply, response, failed_request, Seen, failure, request_with_retry,
}
use jenkins_qemu_provisioner.ControlPlane.Http.Laws.{
  requests, Fails, request_with_retry_finds, request_with_retry_exhausted,
}

abbrev policy : RetryPolicy
policy = record { attempts = 3; sleep_sec = 1 }

abbrev digits : ℕ → String
digits n = "503"

abbrev stripped : String → String
stripped s = s

abbrev flaky : ℕ → Reply
flaky n = if n == 2 then response "{}" else failed_request "ReadTimeout" "timed out"

abbrev down : ℕ → Reply
down n = failed_request "ConnectError" "refused"

flaky_first : (n : ℕ) → n < 1 → Fails (flaky (1 + n))
flaky_first n lt body = λ e. ground arith

request_with_retry_finds_example :
    let found = request_with_retry digits stripped flaky "GET" "http://jenkins" policy in
    (found.0 ≡ ok "{}") × (requests found.1 ≡ 1 + 1)
request_with_retry_finds_example =
    request_with_retry_finds digits stripped flaky "GET" "http://jenkins" policy 1 "{}" flaky_first
      refl (omega arith)

request_with_retry_exhausted_example :
    let ended = request_with_retry digits stripped down "GET" "http://jenkins" policy in
    ((last : Seen) × (ended.0
        ≡ raised (failure digits stripped down "GET" "http://jenkins" policy last)))
    × (requests ended.1 ≡ 3)
request_with_retry_exhausted_example =
    request_with_retry_exhausted digits stripped down "GET" "http://jenkins" policy
      (λ n body e. ground arith)
