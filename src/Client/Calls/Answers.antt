-- ===== src/Client/Calls/Answers.antt =====
-- What a call sends and answers.
use omj_agent.Base.{
  ◌≤◌, ◌≡◌, ◌↔◌, ◌⊎◌, refl, inl, inr, Bool, true, false, not, ◌&&◌, Option, none, some, List, [],
  ◌∷◌, ◌++◌, if◌then◌else◌, arith, Bool-cases, Option-cases, ⊎-cases, ltb, ℤ, sym, subst, ◌∙◌,
}
use omj_agent.Text.{Text, codes, size, is_nil, text_eq}
use omj_agent.Client.Errors.{
  ErrorResponse, ClientError, fault, response_too_large, other, is_retryable,
}
use omj_agent.Client.Errors.Kinds.{new_api_error-kinds}
use omj_agent.Client.Calls.{
  Client, Request, Response, max_response_bytes, request_headers, read_body, decode_error,
  is_success, receive, call,
}

-- The values of a header.
abbrev pub header_values : Text → List (Text × Text) → List Text
header_values name [] = []
header_values name ((n, v) ∷ hs) =
    let rest = header_values name hs in if text_eq n name then v ∷ rest else rest

headers-authorization :
    (c : Client) (has_body authenticated : Bool)
    → header_values (codes "Authorization") (request_headers c has_body authenticated)
      ≡ (if authenticated then (codes "Bearer " ++ c.credential) ∷ [] else [])
unfolding request_headers
headers-authorization c true true = refl
headers-authorization c true false = refl
headers-authorization c false true = refl
headers-authorization c false false = refl

module _ {A : Type 0} (decode : Text → Option ErrorResponse) (until : Text → Option ℤ)
    (decode_out : Text → Option A) where
  -- A request carries the credential exactly if its call is authenticated, in one header; and no
  -- authenticated call without a credential sends a request.
  pub call-authorization :
      (transport : Request → ClientError ⊎ Response) (encodes : Bool) (method path : Text)
      (has_body authenticated : Bool) (c : Client) (req : Request)
      → (call decode until decode_out transport encodes method path has_body authenticated c).0
        ≡ some req
      → (header_values (codes "Authorization") req.headers
          ≡ (if authenticated then (codes "Bearer " ++ c.credential) ∷ [] else []))
        × ((authenticated && is_nil c.credential) ≡ false)
  unfolding call
  call-authorization transport encodes method path has_body authenticated c req h =
      let built : Request = record {
        method = method;
        url = c.base_url ++ path;
        headers = request_headers c has_body authenticated;
      } in
      elim (Bool-cases (authenticated && is_nil c.credential)) [
        | inl t ↦ absurd (ground (arith, h, t))
        | inr f ↦ elim (Bool-cases (not encodes)) [
          | inl t ↦ absurd (ground (arith, h, f, t))
          | inr e ↦
              let sent : req ≡ built = elim (⊎-cases (transport built)) [
                | inl (err, t) ↦ ground (arith, h, f, e, t)
                | inr (resp, t) ↦ ground (arith, h, f, e, t)
              ] in
              (
                subst
                    (λ (r : Request).
                      header_values (codes "Authorization") r.headers
                      ≡ (if authenticated then (codes "Bearer " ++ c.credential) ∷ [] else []))
                    (sym sent) (headers-authorization c has_body authenticated),
                f,
              )
        ]
      ]

  receive-body :
      (resp : Response) (body : Text)
      → resp.body ≡ inr body
      → receive decode until decode_out resp ≡ (
          if ltb max_response_bytes (size body)
          then inl (fault response_too_large)
          else if not (is_success resp.status)
          then inl (decode_error decode until resp body)
          else elim (decode_out body) [ none ↦ inl (fault other) | some out ↦ inr out ])
  unfolding receive read_body
  receive-body resp body b = elim (Bool-cases (ltb max_response_bytes (size body))) [
    | inl t ↦ ground (arith, b, t)
    | inr f ↦ ground (arith, b, f)
  ]

  decode_error-retryable :
      (resp : Response) (body : Text)
      → (is_retryable (decode_error decode until resp body) ≡ true)
        ↔ ((500 ≤ resp.status) ⊎ (resp.status ≡ 429))
  unfolding decode_error
  decode_error-retryable resp body = (new_api_error-kinds resp.status _ _ "").0

  -- Of a response whose body was read, the error that the call answers is worth another attempt exactly
  -- if the body is within the limit and the status is 429 or 500 and above.
  pub receive-retryable :
      (resp : Response) (body : Text) (err : ClientError)
      → resp.body ≡ inr body
      → receive decode until decode_out resp ≡ inl err
      → (is_retryable err ≡ true)
        ↔ ((size body ≤ max_response_bytes) × ((500 ≤ resp.status) ⊎ (resp.status ≡ 429)))
  unfolding is_retryable
  receive-retryable resp body err b h =
      let Worth : ClientError → Type 0 = λ e.
        (is_retryable e ≡ true)
        ↔ ((size body ≤ max_response_bytes) × ((500 ≤ resp.status) ⊎ (resp.status ≡ 429))) in
      let got = sym (receive-body resp body b) ∙ h in
      elim (Bool-cases (ltb max_response_bytes (size body))) [
        | inl t ↦
            subst Worth {x = fault response_too_large} {y = err} (ground (arith, got, t))
              (ground (arith, t))
        | inr f ↦ elim (Bool-cases (is_success resp.status)) [
          | inr n ↦
              subst Worth {x = decode_error decode until resp body} {y = err}
                (ground (arith, got, f, n)) (ground (arith, f, decode_error-retryable resp body))
          | inl y ↦ elim (Option-cases (decode_out body)) [
            | inl e ↦
                subst Worth {x = fault other} {y = err} (ground (arith, got, f, y, e))
                  (ground (arith, y))
            | inr (out, e) ↦ absurd (ground (arith, got, f, y, e))
          ]
        ]
      ]
