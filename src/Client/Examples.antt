-- ===== src/Client/Examples.antt =====
-- The theorems about internal/client at concrete inputs.
use omj_agent.Base.{ℕ, suc, Option, none, some, [], pos, ◌==◌, if◌then◌else◌}
use omj_agent.Client.Errors.{ErrorResponse, ClientError, api, new_api_error}
use omj_agent.Client.Whole.{whole}
use omj_agent.Client.Backoff.{Backoff}
use omj_agent.Client.Retry.{retry}
use omj_agent.Client.Retry.Outcomes.{Explains, retry-Explains}

abbrev throttled_body : ErrorResponse
throttled_body = record {
  error = "throttled";
  message = [];
  errors = [];
  supported_protocol_versions = [];
  min_agent_version = "";
}

-- The defaults, after six failures.
abbrev sixth : Backoff whole
sixth = record { minimum = pos 0; maximum = pos 0; factor = 0; jitter = 0; attempt = 6 }

-- Two answers 429 and then a success, on a counter of the calls.
abbrev third_time : ℕ → ℕ → ℕ × Option ClientError
third_time i s = (suc s, if i == 2 then none else some (api (new_api_error 429 throttled_body 7)))

abbrev no_stop : ℕ → ℕ → Option ClientError
no_stop i d = none

retry-Explains_example :
    let r = retry whole (λ i. 0) third_time no_stop 5 0 sixth 0 in
    Explains whole (λ i. 0) third_time no_stop r.result r.state
retry-Explains_example = retry-Explains whole (λ i. 0) third_time no_stop 5 0 sixth 0
