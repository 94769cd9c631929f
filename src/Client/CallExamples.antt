-- ===== src/Client/CallExamples.antt =====
-- The theorems about internal/client/client.go at concrete inputs.
use omj_agent.Base.{
  ℕ, ◌≤◌, ◌≡◌, ◌⊎◌, ◌↔◌, refl, inl, inr, Bool, true, false, ◌&&◌, Option, none, [], ◌∷◌, ◌++◌, ℤ,
}
use omj_agent.Text.{Text, codes, size, is_nil}
use omj_agent.Client.Errors.{ErrorResponse, ClientError, fault, net_error, is_retryable}
use omj_agent.Client.Calls.{
  Client, Request, Response, max_response_bytes, request_headers, read_body, decode_error, receive,
  call,
}
use omj_agent.Client.Calls.Answers.{header_values, call-authorization, receive-retryable}

abbrev connected : Client
connected = record {
  base_url = codes "https://omj.example/api/agent/v1";
  credential = codes "omj_agent_x";
  agent_version = codes "1.0.0";
  user_agent = codes "omj-agent/1.0.0";
  timeout = 30000000000;
  headroom = 10000000000;
  server_version = [];
}

abbrev no_error : Text → Option ErrorResponse
no_error body = none

abbrev no_date : Text → Option ℤ
no_date value = none

abbrev no_answer : Text → Option Bool
no_answer body = none

abbrev offline : Request → ClientError ⊎ Response
offline req = inl (fault net_error)

abbrev ping : Request
ping = record {
  method = codes "GET";
  url = codes "https://omj.example/api/agent/v1/ping";
  headers = request_headers connected false true;
}

call-authorization_example :
    (header_values (codes "Authorization") ping.headers
      ≡ (codes "Bearer " ++ codes "omj_agent_x") ∷ [])
    × ((true && is_nil (codes "omj_agent_x")) ≡ false)
unfolding call
call-authorization_example =
    call-authorization no_error no_date no_answer offline true (codes "GET") (codes "/ping") false
      true connected ping refl

abbrev busy : Response
busy = record { status = 503; server_version = []; retry_after = []; body = inr (codes "busy") }

receive-retryable_example :
    (is_retryable (decode_error no_error no_date busy (codes "busy")) ≡ true)
    ↔ ((size (codes "busy") ≤ max_response_bytes) × ((500 ≤ 503) ⊎ (◌≡◌ {A = ℕ} 503 429)))
unfolding receive read_body
receive-retryable_example =
    receive-retryable no_error no_date no_answer busy (codes "busy") _ refl refl
