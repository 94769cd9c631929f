-- ===== src/Agent/Outcomes.antt =====
-- `OutcomeOf` of internal/agent/agent.go, and `Resend`, `finishRequest` and the end of `deliver`
-- of internal/agent/reporter.go: what the server and the state file are told of a run.
use omj_agent.Base.{
  ℕ, ◌≡◌, ◌⊎◌, inl, inr, refl, String, Bool, true, false, ◌&&◌, ◌||◌, Option, none, some,
  if◌then◌else◌, ℤ, pos, negsuc, ◌==◌, eq_iff, Bool-cases, arith, ◌≢◌, is_some, str_eq, not,
}
use omj_agent.Protocol.{
  RunStatus, FinishReason, run_status_timed_out, run_status_cancelled, run_status_success,
  run_status_failed, reason_agent_stopped, is_reportable, is_valid_reason,
}
use omj_agent.State.{RecentRun, Outcome, recent_of}
use omj_agent.Agent.Types.{Run, Result, FinishRequest}

abbrev pub is_zero : ℤ → Bool
is_zero (pos n) = n == 0
is_zero (negsuc n) = false

-- The exit code that `OutcomeOf` returns is always the result's.
unfoldable pub outcome_of : Result → RunStatus × Option ℤ × Option FinishReason
outcome_of r =
    if r.timed_out
    then (run_status_timed_out, some r.exit_code, none)
    else if r.cancelled
    then (if str_eq r.reason reason_agent_stopped
        then (run_status_cancelled, some r.exit_code, some reason_agent_stopped)
        else (run_status_cancelled, some r.exit_code, none))
    else if is_zero r.exit_code && not (is_some r.err)
    then (run_status_success, some r.exit_code, none)
    else (run_status_failed, some r.exit_code, none)

-- `finishRequest`; `none` is the nil dereference of a run without a result.
unfoldable pub finish_request : ℕ → Run → Option Result → ℕ → Bool → Option FinishRequest
finish_request now run result last_seq truncated =
    let request : FinishRequest = record {
      status = "";
      exit_code = none;
      started_at = none;
      finished_at = now;
      last_output_seq = last_seq;
      output_truncated = truncated;
      reason = none;
    } in
    if run.cancelled_before_start
    then some (record request { status = run_status_cancelled })
    else if is_some run.spawn_err
    then some (record request { status = run_status_failed; reason = some run.spawn_reason })
    else elim result [
      | none ↦ none
      | some r ↦
          let (status, code, reason) = outcome_of r in
          some (record request {
            status = status;
            exit_code = code;
            started_at = some run.started_at;
            reason = reason;
          })
    ]

-- What `deliver` and `reconcile` put on record.
abbrev pub recorded : FinishRequest → Outcome
recorded r = record {
  status = r.status;
  exit_code = r.exit_code;
  started_at = r.started_at;
  reason = r.reason;
}

-- The request of `Resend`.
unfoldable pub resend_request : RecentRun → FinishRequest
resend_request o = record {
  status = o.status;
  exit_code = o.exit_code;
  started_at = o.started_at;
  finished_at = o.finished_at;
  last_output_seq = 0;
  output_truncated = false;
  reason = o.reason;
}

-- A run as the agent hands it over: it never had a process, or its process has ended.
abbrev pub has_ended : Run → Option Result → Bool
has_ended run result = run.cancelled_before_start || is_some run.spawn_err || is_some result

abbrev is_valid_or_none : Option FinishReason → Bool
is_valid_or_none none = true
is_valid_or_none (some r) = is_valid_reason r

-- What the server's finish endpoint requires of a request.
abbrev pub IsAcceptable : FinishRequest → Type 0
IsAcceptable r =
    (is_reportable r.status ≡ true)
    × (is_valid_or_none r.reason ≡ true)
    × (is_some r.started_at ≡ is_some r.exit_code)

ne_success : (s : RunStatus) → str_eq s run_status_success ≡ false → s ≢ run_status_success
ne_success s f e = ground (arith, f, (eq_iff s run_status_success).1 e)

-- What holds of each of the five returns holds of what `OutcomeOf` returns.
outcome_rule :
    (P : RunStatus → Option ℤ → Option FinishReason → Type 0) (r : Result)
    → (r.timed_out ≡ true → P run_status_timed_out (some r.exit_code) none)
    → (r.timed_out ≡ false
        → r.cancelled ≡ true
        → P run_status_cancelled (some r.exit_code) (some reason_agent_stopped))
    → (r.timed_out ≡ false → r.cancelled ≡ true → P run_status_cancelled (some r.exit_code) none)
    → (r.timed_out ≡ false
        → r.cancelled ≡ false
        → (is_zero r.exit_code && not (is_some r.err)) ≡ true
        → P run_status_success (some r.exit_code) none)
    → P run_status_failed (some r.exit_code) none
    → let (status, code, reason) = outcome_of r in P status code reason
unfolding outcome_of
outcome_rule P r timed stopped cancelled success failed = elim (Bool-cases r.timed_out) [
  | inl t ↦ rw t (timed t)
  | inr f ↦ elim (Bool-cases r.cancelled) [
    | inl c ↦ elim (Bool-cases (str_eq r.reason reason_agent_stopped)) [
      | inl s ↦ rw (f, c, s) (stopped f c)
      | inr s ↦ rw (f, c, s) (cancelled f c)
    ]
    | inr c ↦ elim (Bool-cases (is_zero r.exit_code && not (is_some r.err))) [
      | inl z ↦ rw (f, c, z) (success f c z)
      | inr z ↦ rw (f, c, z) failed
    ]
  ]
]

-- `OutcomeOf` returns a status that finish accepts and the exit code, and a reason only for a
-- cancellation by the stopping agent; success means exit code 0 with no error, no timeout and no
-- cancellation.
pub outcome_of_lem :
    (r : Result)
    → let (status, code, reason) = outcome_of r in
      (is_reportable status ≡ true)
      × (code ≡ some r.exit_code)
      × ((reason ≡ none)
          ⊎ ((reason ≡ some reason_agent_stopped)
              × (status ≡ run_status_cancelled)
              × (r.cancelled ≡ true)
              × (r.timed_out ≡ false)))
      × (status ≡ run_status_success
          → (is_zero r.exit_code ≡ true)
            × (r.err ≡ none)
            × (r.timed_out ≡ false)
            × (r.cancelled ≡ false))
unfolding outcome_of is_reportable
outcome_of_lem r =
    outcome_rule
      (λ status code reason.
        (is_reportable status ≡ true)
        × (code ≡ some r.exit_code)
        × ((reason ≡ none)
            ⊎ ((reason ≡ some reason_agent_stopped)
                × (status ≡ run_status_cancelled)
                × (r.cancelled ≡ true)
                × (r.timed_out ≡ false)))
        × (status ≡ run_status_success
            → (is_zero r.exit_code ≡ true)
              × (r.err ≡ none)
              × (r.timed_out ≡ false)
              × (r.cancelled ≡ false)))
      r (λ t. (refl, refl, inl refl, λ e. absurd (ne_success run_status_timed_out refl e)))
      (λ f c.
        (refl, refl, inr (refl, refl, c, f), λ e. absurd (ne_success run_status_cancelled refl e)))
      (λ f c. (refl, refl, inl refl, λ e. absurd (ne_success run_status_cancelled refl e)))
      (λ f c z. (refl, refl, inl refl, λ e. (ground (arith, z), ground (arith, z), f, c)))
      (refl, refl, inl refl, λ e. absurd (ne_success run_status_failed refl e))

-- What is put on record is what `Resend` sends again: all of the request that was made but its
-- last number and its truncation, with the time at which it was recorded.
pub resend_request-recent_of :
    (now : ℕ) (run_id : String) (r : FinishRequest)
    → resend_request (recent_of now run_id (recorded r))
      ≡ record r { finished_at = now; last_output_seq = 0; output_truncated = false }
unfolding resend_request
resend_request-recent_of now run_id r = refl
