-- ===== src/Agent/Terms.antt =====
-- The terms of a lease in internal/agent/lease.go: whether it is good, under which limits and as
-- which user it runs.
use omj_agent.Base.{
  ℕ, suc, ◌+◌, ◌*◌, ◌-◌, ◌/◌, ◌%◌, String, not, ◌||◌, Option, none, some, List, ltb, ◌==◌,
  if◌then◌else◌, length, ℤ, pos, negsuc, is_positive, min_ℤ, wrap_i64, contains_func, str_eq,
  is_empty_str, ◌⊎◌, inl, inr,
}
use omj_agent.State.{is_active}
use omj_agent.Agent.Types.{RunLease, Agent, SpawnError, no_users_allowed, not_allowed, StartRequest}

-- 5 * time.Second, in nanoseconds
abbrev pub clock_tolerance : ℕ
clock_tolerance = 5000000000

-- `time.Duration(n) * time.Second`, which wraps.
abbrev pub seconds : ℤ → ℤ
seconds (pos n) = wrap_i64 (n * 1000000000)
seconds (negsuc n) = wrap_i64 (18446744073709551616 - (suc n * 1000000000) % 18446744073709551616)

-- `d / time.Second`, towards zero.
abbrev pub whole_seconds : ℤ → ℤ
whole_seconds (pos n) = pos (n / 1000000000)
whole_seconds (negsuc n) = let q = suc n / 1000000000 in if q == 0 then pos 0 else negsuc (q - 1)

abbrev pub deref : Option String → String
deref none = ""
deref (some s) = s

pub record VerifiedLease : Type 0 where
  pub lease : RunLease
  pub timeout : ℤ
  pub max_output : ℤ

pub data LeaseError : Type 0 where
  no_run_id other_machine still_active expired no_command bad_timeout bad_output : LeaseError

unfoldable pub verify : ℕ → Agent → RunLease → LeaseError ⊎ VerifiedLease
verify now a lease =
    if is_empty_str lease.run_id
    then inl no_run_id
    else if not (str_eq lease.machine_id a.conf.machine_id)
    then inl other_machine
    else if is_active lease.run_id a.store
    then inl still_active
    else if not (ltb now (lease.lease_expires_at + clock_tolerance))
    then inl expired
    else if is_empty_str lease.command
    then inl no_command
    else if not (is_positive lease.timeout_seconds)
    then inl bad_timeout
    else if not (is_positive lease.max_output_bytes)
    then inl bad_output
    else inr (record {
      lease = lease;
      timeout = seconds (min_ℤ lease.timeout_seconds a.conf.max_timeout_seconds);
      max_output = min_ℤ lease.max_output_bytes a.conf.max_output_bytes;
    })

-- `executionUser`
unfoldable pub execution_user : List String → RunLease → SpawnError ⊎ String
execution_user allowed lease =
    let name = deref lease.run_as in
    if is_empty_str name || contains_func (λ n. str_eq n name) allowed
    then inr name
    else if length allowed == 0
    then inl (no_users_allowed name)
    else inl (not_allowed name allowed)

unfoldable pub start_request : ℤ → ℤ → StartRequest
start_request timeout max_output = record {
  effective_timeout_seconds = whole_seconds timeout;
  effective_max_output_bytes = max_output;
}
