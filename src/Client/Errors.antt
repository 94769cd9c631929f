-- ===== src/Client/Errors.antt =====
-- internal/client/errors.go. An error is one of the kinds that the code tells apart, wrapped in
-- texts that it does not read, or a join of two, which is searched from the left.
pub mod Kinds
use omj_agent.Base.{
  ℕ, String, Bool, true, false, ◌&&◌, ◌||◌, Option, none, some, List, leb, ◌==◌, str_eq,
  if◌then◌else◌,
}
use omj_agent.Text.{Text}
use omj_agent.Protocol.{ErrorCode}

pub record ErrorResponse : Type 0 where
  pub error : ErrorCode
  pub message : Text
  pub errors : List (String × List String)
  pub supported_protocol_versions : List ℕ
  pub min_agent_version : String

-- `retry_after` in nanoseconds
pub record ApiError : Type 0 where
  pub status : ℕ
  pub code : ErrorCode
  pub message : Text
  pub retryable : Bool
  pub retry_after : ℕ
  pub errors : List (String × List String)
  pub supported_protocol_versions : List ℕ
  pub min_agent_version : String

-- The sentinels and kinds that `errors.Is` and `errors.As` look for. A missed deadline is a
-- `net_error`: its type implements `net.Error`.
pub data Fault : Type 0 where
  canceled response_too_large no_credential net_error certificate : Fault
  unexpected_eof eof other : Fault

pub data ClientError : Type 0 where
  api : ApiError → ClientError
  fault : Fault → ClientError
  joined : ClientError → ClientError → ClientError

unfoldable pub new_api_error : ℕ → ErrorResponse → ℕ → ApiError
new_api_error status body retry_after = record {
  status = status;
  code = body.error;
  message = body.message;
  retryable = leb 500 status || status == 429;
  retry_after = retry_after;
  errors = body.errors;
  supported_protocol_versions = body.supported_protocol_versions;
  min_agent_version = body.min_agent_version;
}

-- `errors.As`
abbrev pub as_api_error : ClientError → Option ApiError
as_api_error (api e) = some e
as_api_error (fault f) = none
as_api_error (joined a b) =
    let right = as_api_error b in elim (as_api_error a) [ some e ↦ some e | none ↦ right ]

-- `errors.Is`, or `errors.As` for `net.Error`
abbrev pub is_fault : (Fault → Bool) → ClientError → Bool
is_fault p (api e) = false
is_fault p (fault f) = p f
is_fault p (joined a b) = is_fault p a || is_fault p b

abbrev has_status : ℕ → ClientError → Bool
has_status status err = elim (as_api_error err) [ none ↦ false | some e ↦ e.status == status ]

unfoldable pub is_unauthorized : ClientError → Bool
is_unauthorized = has_status 401

unfoldable pub is_unsupported_protocol : ClientError → Bool
is_unsupported_protocol = has_status 426

unfoldable pub is_conflict : ClientError → ErrorCode → Bool
is_conflict err code = elim (as_api_error err) [
  | none ↦ false
  | some e ↦ e.status == 409 && str_eq e.code code
]

unfoldable pub is_not_found : ClientError → Bool
is_not_found = has_status 404

unfoldable pub is_payload_too_large : ClientError → Bool
is_payload_too_large = has_status 413

unfoldable pub is_throttled : ClientError → Bool
is_throttled = has_status 429

abbrev pub is_final_fault : Fault → Bool
is_final_fault canceled = true
is_final_fault response_too_large = true
is_final_fault no_credential = true
is_final_fault _ = false

abbrev pub is_network_fault : Fault → Bool
is_network_fault net_error = true
is_network_fault unexpected_eof = true
is_network_fault eof = true
is_network_fault _ = false

unfoldable pub is_retryable : ClientError → Bool
is_retryable err = elim (as_api_error err) [
  | some e ↦ e.retryable
  | none ↦ if is_fault is_final_fault err then false else is_fault is_network_fault err
]

unfoldable pub retry_after_of : ClientError → ℕ
retry_after_of err = elim (as_api_error err) [ none ↦ 0 | some e ↦ e.retry_after ]
