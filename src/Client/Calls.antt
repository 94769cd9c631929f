-- ===== src/Client/Calls.antt =====
-- internal/client/client.go: one call of the server. `net/url`, `net/http` and `encoding/json` are
-- parameters: a URL's scheme and host, what the transport answers, what a body decodes to.
pub mod Answers
use omj_agent.Base.{
  ℕ, ◌+◌, ◌*◌, ◌≡◌, ◌⊎◌, inl, inr, String, Bool, true, false, not, ◌&&◌, ◌||◌, Option, none, some,
  List, [], ◌∷◌, ◌++◌, leb, ltb, ◌==◌, if◌then◌else◌, ℤ, pos, negsuc, to_ℕ, wrap_i64, positive_or,
  is_empty_str, is_some,
}
use omj_agent.Text.{Text, codes, size, is_nil, text_eq}
use omj_agent.Text.Trim.{trim_right, trim_space}
use omj_agent.Text.Decimal.{atoi, format_ℕ}
use omj_agent.Client.Errors.{
  ErrorResponse, ClientError, api, fault, no_credential, response_too_large, other, new_api_error,
}
use omj_agent.Config.File.{Url}

-- 30 and 10 seconds, in nanoseconds
abbrev pub default_timeout : ℕ
default_timeout = 30000000000

abbrev pub long_poll_headroom : ℕ
long_poll_headroom = 10000000000

-- 1 << 20
abbrev pub max_response_bytes : ℕ
max_response_bytes = 1048576

abbrev pub base_path : Text
base_path = codes "/api/agent/v1"

-- The fields of a `Client` that its calls read or write.
pub record Client : Type 0 where
  pub base_url : Text
  pub credential : Text
  pub agent_version : Text
  pub user_agent : Text
  pub timeout : ℕ
  pub headroom : ℕ
  pub server_version : Text

pub data NewError : Type 0 where
  not_a_url not_protected not_https : NewError

-- The scheme check of `New`.
unfoldable pub check_url : Option Url → Bool → Option NewError
check_url none insecure = some not_a_url
check_url (some u) insecure =
    let named = not (is_nil u.host) in
    if text_eq u.scheme (codes "https") && named
    then none
    else if text_eq u.scheme (codes "http") && named && insecure
    then none
    else if text_eq u.scheme (codes "http") && named
    then some not_protected
    else some not_https

pub record Options : Type 0 where
  pub server_url : Text
  pub credential : Text
  pub insecure_http : Bool
  pub timeout : ℤ
  pub headroom : ℤ

unfoldable pub new_client : (Text → Option Url) → Text → Text → Options → NewError ⊎ Client
new_client parse_url version user_agent opts =
    elim (check_url (parse_url opts.server_url) opts.insecure_http) [
      | some err ↦ inl err
      | none ↦ inr record {
        base_url = trim_right (λ c. c == b'/') opts.server_url ++ base_path;
        credential = opts.credential;
        agent_version = version;
        user_agent = user_agent;
        timeout = positive_or default_timeout opts.timeout;
        headroom = positive_or long_poll_headroom opts.headroom;
        server_version = [];
      }
    ]

pub record Request : Type 0 where
  pub method : Text
  pub url : Text
  pub headers : List (Text × Text)

-- The headers of `newRequest`.
unfoldable pub request_headers : Client → Bool → Bool → List (Text × Text)
request_headers c has_body authenticated =
    let always =
      (codes "Accept", codes "application/json")
      ∷ (codes "User-Agent", c.user_agent)
      ∷ (codes "X-OMJ-Protocol-Version", format_ℕ 1)
      ∷ (codes "X-OMJ-Agent-Version", c.agent_version)
      ∷ [] in
    let content = if has_body then (codes "Content-Type", codes "application/json") ∷ [] else [] in
    let secret =
      if authenticated then (codes "Authorization", codes "Bearer " ++ c.credential) ∷ [] else [] in
    always ++ content ++ secret

-- A response: its status, three of its headers, and its body or the error of reading it.
pub record Response : Type 0 where
  pub status : ℕ
  pub server_version : Text
  pub retry_after : Text
  pub body : ClientError ⊎ Text

unfoldable pub remember_server_version : Text → Client → Client
remember_server_version v c = if is_nil v then c else record c { server_version = v }

-- The reader stops after one byte more than the limit.
unfoldable pub read_body : ClientError ⊎ Text → ClientError ⊎ Text
read_body (inl err) = inl err
read_body (inr body) =
    if ltb max_response_bytes (size body) then inl (fault response_too_large) else inr body

-- Nanoseconds. A product that `int64` holds as a negative duration is no wait, as 0 is none;
-- `until` is the time to an HTTP date.
unfoldable pub retry_after : (Text → Option ℤ) → Text → ℕ
retry_after until value = if is_nil value then 0 else elim (atoi value) [
  | some seconds ↦ to_ℕ (wrap_i64 (to_ℕ seconds * 1000000000))
  | none ↦ elim (until value) [ none ↦ 0 | some wait ↦ to_ℕ wait ]
]

-- The answer of a server that is no `ErrorResponse`.
abbrev pub plain_response : Text → ErrorResponse
plain_response body = record {
  error = "";
  message = trim_space body;
  errors = [];
  supported_protocol_versions = [];
  min_agent_version = "";
}

unfoldable pub decode_error :
    (Text → Option ErrorResponse) → (Text → Option ℤ) → Response → Text → ClientError
decode_error decode until resp body =
    let plain = plain_response body in
    let parsed = elim (decode body) as (λ x. ErrorResponse) [
      | none ↦ plain
      | some r ↦ if is_empty_str r.error then plain else r
    ] in
    api (new_api_error resp.status parsed (retry_after until resp.retry_after))

abbrev pub is_success : ℕ → Bool
is_success status = not (ltb status 200 || leb 300 status)

module _ {A : Type 0} (decode : Text → Option ErrorResponse) (until : Text → Option ℤ)
    (decode_out : Text → Option A) where
  -- `call`, after the response has come.
  unfoldable pub receive : Response → ClientError ⊎ A
  receive resp = elim (read_body resp.body) [
    | inl err ↦ inl err
    | inr body ↦
        if not (is_success resp.status)
        then inl (decode_error decode until resp body)
        else elim (decode_out body) [ none ↦ inl (fault other) | some out ↦ inr out ]
  ]

  -- `call`: the request that is sent, if one is; the answer; and the client after it. `encodes` says
  -- whether the request can be built, `transport` what `http.Client.Do` answers.
  unfoldable pub call :
      (Request → ClientError ⊎ Response)
      → Bool
      → Text
      → Text
      → Bool
      → Bool
      → Client
      → Option Request × (ClientError ⊎ A) × Client
  call transport encodes method path has_body authenticated c =
      if authenticated && is_nil c.credential
      then (none, inl (fault no_credential), c)
      else if not encodes
      then (none, inl (fault other), c)
      else (let request : Request = record {
        method = method;
        url = c.base_url ++ path;
        headers = request_headers c has_body authenticated;
      } in
          elim (transport request) [
            | inl err ↦ (some request, inl err, c)
            | inr resp ↦ (some request, receive resp, remember_server_version resp.server_version c)
          ])
