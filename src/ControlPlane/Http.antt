-- ===== src/ControlPlane/Http.antt =====
-- `request_with_retry` of control_plane/clients/http.py. What a request comes to is outside: the
-- reply to each attempt, by its number from 1, is a parameter. What the loop does is kept as a list
-- of steps, in their order.
pub mod Laws
use jenkins_qemu_provisioner.Prelude.{
  ℕ, zero, suc, ◌+◌, String, Option, none, some, List, [], ◌∷◌, concat, truthy, if◌then◌else◌,
}
use jenkins_qemu_provisioner.ControlPlane.World.{
  Exn, RequestFailure, request_failure, Result, ok, raised,
}

pub record RetryPolicy : Type 0 where
  pub attempts : ℕ
  pub sleep_sec : ℕ

-- A response that passes `raise_for_status`; one that does not, with the name of the exception, the
-- status and the text; or another exception, with its name and its text.
pub data Reply : Type 0 where
  response : String → Reply
  bad_status : String → ℕ → String → Reply
  failed_request : String → String → Reply

-- The variables of the loop.
pub record Seen : Type 0 where
  pub status_code : Option ℕ
  pub response_text : Option String
  pub detail : String
  pub error_type : String

pub data Step : Type 0 where
  request : ℕ → Step
  sleep : ℕ → Step

abbrev pub unknown : Seen
unknown = record {
  status_code = none;
  response_text = none;
  detail = "unknown error";
  error_type = "RuntimeError";
}

module _ (str_int : ℕ → String) (strip : String → String) where
  -- the three `except` blocks
  unfoldable pub see : Reply → Seen → Seen
  see (response body) seen = seen
  see (bad_status name status text) seen = record {
    status_code = some status;
    response_text = some text;
    detail =
        if truthy (strip text)
        then concat ("HTTP " ∷ str_int status ∷ ": " ∷ strip text ∷ [])
        else concat ("HTTP " ∷ str_int status ∷ []);
    error_type = name;
  }
  see (failed_request name text) seen = record seen { detail = text; error_type = name }

  module _ (replies : ℕ → Reply) (method url : String) (retry : RetryPolicy) where
    abbrev pub failure : Seen → Exn
    failure seen = request_failure (record {
      method = method;
      url = url;
      attempts = retry.attempts;
      error_type = seen.error_type;
      detail = seen.detail;
      status_code = seen.status_code;
      response_text = seen.response_text;
    })

    -- `if attempt < retry.attempts: time.sleep(retry.sleep_sec)`, with the attempts that are left
    abbrev pub pause : ℕ → List Step → List Step
    pause zero steps = steps
    pause (suc left) steps = sleep retry.sleep_sec ∷ steps

    abbrev pub conclude : Reply → Result String × List Step → ℕ → ℕ → Result String × List Step
    conclude (response body) later attempt left = (ok body, request attempt ∷ [])
    conclude _ later attempt left = (later.0, request attempt ∷ pause left later.1)

    -- The loop from an attempt on, with the attempts that are left.
    unfoldable pub attempt_from : ℕ → ℕ → Seen → Result String × List Step
    attempt_from attempt zero seen = (raised (failure seen), [])
    attempt_from attempt (suc left) seen =
        let later = attempt_from (attempt + 1) left (see (replies attempt) seen) in
        conclude (replies attempt) later attempt left

    unfoldable pub request_with_retry : Result String × List Step
    unfolding attempt_from
    request_with_retry = attempt_from 1 retry.attempts unknown
