-- ===== src/Client/Errors/Kinds.antt =====
-- What the tests of internal/client/errors.go say of a server's answer.
use omj_agent.Base.{ℕ, ◌≤◌, ◌≡◌, ◌⊎◌, ◌↔◌, true, false, arith, none}
use omj_agent.Protocol.{ErrorCode}
use omj_agent.Client.Errors.{
  ErrorResponse, ClientError, api, joined, new_api_error, is_conflict, is_not_found,
  is_unauthorized, is_unsupported_protocol, is_throttled, is_retryable, retry_after_of, is_fault,
  as_api_error, is_final_fault,
}

-- An answer of the server is worth another attempt exactly if it is a 429 or a 5xx (or above);
-- so no conflict, refused credential, missing run or refused protocol is ever retried, and the
-- wait that the server named is kept.
pub new_api_error-kinds :
    (status : ℕ) (body : ErrorResponse) (wait : ℕ) (code : ErrorCode)
    → let err = api (new_api_error status body wait) in
      ((is_retryable err ≡ true) ↔ ((500 ≤ status) ⊎ (status ≡ 429)))
      × (is_conflict err code ≡ true → is_retryable err ≡ false)
      × (is_not_found err ≡ true → is_retryable err ≡ false)
      × (is_unauthorized err ≡ true → is_retryable err ≡ false)
      × (is_unsupported_protocol err ≡ true → is_retryable err ≡ false)
      × (is_throttled err ≡ true → is_retryable err ≡ true)
      × (retry_after_of err ≡ wait)
unfolding new_api_error is_retryable is_conflict is_not_found is_unauthorized
    is_unsupported_protocol is_throttled retry_after_of
new_api_error-kinds status body wait code = ground arith

-- An error that no answer of the server is part of and that a cancelled context is part of is
-- final, whatever it is joined with.
pub is_retryable-canceled :
    (a b : ClientError)
    → as_api_error (joined a b) ≡ none
    → is_fault is_final_fault a ≡ true
    → (is_retryable (joined a b) ≡ false) × (is_retryable (joined b a) ≡ false)
unfolding is_retryable
is_retryable-canceled a b e c = ground arith
