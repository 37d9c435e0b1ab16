-- ===== src/ControlPlane/Http/Laws.antt =====
-- How often `request_with_retry` sends the request, and what it returns.
use jenkins_qemu_provisioner.Prelude.{
  ℕ, zero, suc, ◌+◌, ◌-◌, ◌≤◌, ◌<◌, String, ◌≡◌, ◌≢◌, refl, subst, ◌∙◌, List, [], ◌∷◌, arith,
}
use jenkins_qemu_provisioner.ControlPlane.World.{Result, ok, raised}
use jenkins_qemu_provisioner.ControlPlane.Http.{
  RetryPolicy, Reply, response, bad_status, failed_request, Seen, Step, request, sleep, see,
  failure, conclude, attempt_from, request_with_retry, unknown,
}

-- The requests and the sleeps among the steps.
unfoldable pub requests : List Step → ℕ
requests [] = 0
requests (request n ∷ steps) = requests steps + 1
requests (sleep n ∷ steps) = requests steps

unfoldable pub sleeps : List Step → ℕ
sleeps [] = 0
sleeps (request n ∷ steps) = sleeps steps
sleeps (sleep n ∷ steps) = sleeps steps + 1

-- The reply is no response that passes `raise_for_status`.
abbrev pub Fails : Reply → Type 0
Fails reply = (body : String) → reply ≢ response body

module _ (str_int : ℕ → String) (strip : String → String) (replies : ℕ → Reply)
    (method url : String) (retry : RetryPolicy) where
  bounded :
      (attempt left : ℕ) (seen : Seen)
      → requests (attempt_from str_int strip replies method url retry attempt left seen).1 ≤ left
  unfolding attempt_from requests
  bounded attempt zero seen = omega arith
  bounded attempt (suc left) seen =
      let h = bounded (attempt + 1) left (see str_int strip (replies attempt) seen) in ground arith

  slept :
      (attempt left : ℕ) (seen : Seen)
      → sleeps (attempt_from str_int strip replies method url retry attempt left seen).1 ≤ left - 1
  unfolding attempt_from sleeps
  slept attempt zero seen = omega arith
  slept attempt (suc zero) seen = ground arith
  slept attempt (suc (suc left)) seen =
      let h = slept (attempt + 1) (suc left) (see str_int strip (replies attempt) seen) in
      ground arith

  -- A request is sent at most as often as the policy says, and there is no sleep after the last
  -- attempt.
  pub request_with_retry_bounded :
      (requests (request_with_retry str_int strip replies method url retry).1 ≤ retry.attempts)
      × (sleeps (request_with_retry str_int strip replies method url retry).1 ≤ retry.attempts - 1)
  unfolding request_with_retry
  request_with_retry_bounded = (bounded 1 retry.attempts unknown, slept 1 retry.attempts unknown)

  at_response :
      (r : Reply) (body : String) (later : Result String × List Step) (attempt left : ℕ)
      → r ≡ response body
      → let ended = conclude str_int strip replies method url retry r later attempt left in
        (ended.0 ≡ ok body) × (requests ended.1 ≡ 1)
  unfolding requests
  at_response r body later attempt left h = ground arith

  after_failure :
      (r : Reply) (later : Result String × List Step) (attempt left : ℕ)
      → Fails r
      → let ended = conclude str_int strip replies method url retry r later attempt left in
        (ended.0 ≡ later.0) × (requests ended.1 ≡ requests later.1 + 1)
  unfolding requests
  after_failure (response body) later attempt left f = absurd (f body refl)
  after_failure (bad_status name status text) later attempt zero f = ground arith
  after_failure (bad_status name status text) later attempt (suc left) f = ground arith
  after_failure (failed_request name text) later attempt zero f = ground arith
  after_failure (failed_request name text) later attempt (suc left) f = ground arith

  -- The first response that passes ends the loop: it is returned, after one request for each of the
  -- attempts before it and one for itself.
  finds :
      (before attempt left : ℕ) (seen : Seen) (body : String)
      → ((n : ℕ) → n < before → Fails (replies (attempt + n)))
      → replies (attempt + before) ≡ response body
      → before < left
      → let found = attempt_from str_int strip replies method url retry attempt left seen in
        (found.0 ≡ ok body) × (requests found.1 ≡ before + 1)
  unfolding attempt_from
  finds before attempt zero seen body fails good room = absurd (none_left room)
    where
      none_left : before < 0 → ⊥
      none_left lt = omega arith
  finds zero attempt (suc left) seen body fails good room =
      let same : attempt + 0 ≡ attempt = omega arith in
      at_response (replies attempt) body _ attempt left
        (subst (λ n. replies n ≡ response body) same good)
  finds (suc before) attempt (suc left) seen body fails good room =
      let seen' = see str_int strip (replies attempt) seen in
      let first : attempt + 0 ≡ attempt = omega arith in
      let next : attempt + suc before ≡ attempt + 1 + before = omega arith in
      let h =
        finds before (attempt + 1) left seen' body
          (λ n lt. subst (λ m. Fails (replies m)) (shift n) (fails (suc n) (omega arith)))
          (subst (λ n. replies n ≡ response body) next good) (omega arith) in
      let k =
        after_failure (replies attempt)
          (attempt_from str_int strip replies method url retry (attempt + 1) left seen') attempt
          left (subst (λ m. Fails (replies m)) first (fails 0 (omega arith))) in
      (k.0 ∙ h.0, omega arith)
    where
      shift : (n : ℕ) → attempt + suc n ≡ attempt + 1 + n
      shift n = omega arith

  -- Where the attempts before one fail and that one is among those of the policy and gets a response
  -- that passes, that response is returned, and the request was sent once for each attempt up to it.
  pub request_with_retry_finds :
      (before : ℕ) (body : String)
      → ((n : ℕ) → n < before → Fails (replies (1 + n)))
      → replies (1 + before) ≡ response body
      → before < retry.attempts
      → let found = request_with_retry str_int strip replies method url retry in
        (found.0 ≡ ok body) × (requests found.1 ≡ before + 1)
  unfolding request_with_retry
  request_with_retry_finds before body = finds before 1 retry.attempts unknown body

  all_fail :
      (attempt left : ℕ) (seen : Seen)
      → ((n : ℕ) → Fails (replies n))
      → let ended = attempt_from str_int strip replies method url retry attempt left seen in
        ((last : Seen) × (ended.0 ≡ raised (failure str_int strip replies method url retry last)))
        × (requests ended.1 ≡ left)
  unfolding attempt_from requests
  all_fail attempt zero seen fails = ((seen, refl), refl)
  all_fail attempt (suc left) seen fails =
      let seen' = see str_int strip (replies attempt) seen in
      let h = all_fail (attempt + 1) left seen' fails in
      let k =
        after_failure (replies attempt)
          (attempt_from str_int strip replies method url retry (attempt + 1) left seen') attempt
          left (fails attempt) in
      ((h.0.0, k.0 ∙ h.0.1), omega arith)

  -- Where every attempt fails, a RequestFailure for the method and the URL is raised, after exactly
  -- as many requests as the policy says.
  pub request_with_retry_exhausted :
      ((n : ℕ) → Fails (replies n))
      → let ended = request_with_retry str_int strip replies method url retry in
        ((last : Seen) × (ended.0 ≡ raised (failure str_int strip replies method url retry last)))
        × (requests ended.1 ≡ retry.attempts)
  unfolding request_with_retry
  request_with_retry_exhausted = all_fail 1 retry.attempts unknown
