-- ===== src/Agent/Lease/Verified.antt =====
-- `verify` and `executionUser` of internal/agent/lease.go.
use omj_agent.Base.{
  ℕ, ◌+◌, ◌<◌, ◌≡◌, ◌↔◌, inr, String, true, false, ◌||◌, List, is_positive, min_ℤ, contains_func,
  str_eq, is_empty_str, arith,
}
use omj_agent.State.{is_active}
use omj_agent.Agent.Types.{RunLease, Agent}
use omj_agent.Agent.Terms.{VerifiedLease, verify, clock_tolerance, seconds, execution_user, deref}

-- What `verify` asks of a lease.
abbrev pub IsGood : ℕ → Agent → RunLease → Type 0
IsGood now a lease =
    (is_empty_str lease.run_id ≡ false)
    × (str_eq lease.machine_id a.conf.machine_id ≡ true)
    × (is_active lease.run_id a.store ≡ false)
    × (now < lease.lease_expires_at + clock_tolerance)
    × (is_empty_str lease.command ≡ false)
    × (is_positive lease.timeout_seconds ≡ true)
    × (is_positive lease.max_output_bytes ≡ true)

abbrev pub limited : Agent → RunLease → VerifiedLease
limited a lease = record {
  lease = lease;
  timeout = seconds (min_ℤ lease.timeout_seconds a.conf.max_timeout_seconds);
  max_output = min_ℤ lease.max_output_bytes a.conf.max_output_bytes;
}

-- `verify` accepts a lease exactly if it is for this machine, names a run that is not active, has
-- not expired by more than the tolerance and has a command and positive limits; it then returns the
-- lease under the machine's own limits.
pub verify_iff :
    (now : ℕ) (a : Agent) (lease : RunLease) (v : VerifiedLease)
    → (verify now a lease ≡ inr v) ↔ (IsGood now a lease × (v ≡ limited a lease))
unfolding verify
verify_iff now a lease v = ground arith

-- A number of seconds that an `int64` of nanoseconds holds.
abbrev pub max_seconds : ℕ
max_seconds = 9223372036

-- `executionUser` answers with a name exactly if it is the name that the lease asks for, and that
-- is the empty one or stands on the machine's list; a refusal names it.
pub execution_user_lem :
    (allowed : List String) (lease : RunLease)
    → let name = deref lease.run_as in
      ((user : String)
        → (execution_user allowed lease ≡ inr user) ↔ (
            (user ≡ name)
            × ((is_empty_str name || contains_func (λ n. str_eq n name) allowed) ≡ true)))
unfolding execution_user
execution_user_lem allowed lease user = ground arith
