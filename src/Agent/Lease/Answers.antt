-- ===== src/Agent/Lease/Answers.antt =====
-- `handleLease` of internal/agent/lease.go returns once the lease has expired.
use omj_agent.Base.{
  ⊎-cases, ℕ, ◌<◌, ◌≡◌, refl, ◌≢◌, inl, inr, Bool, true, false, Option, none, some, [], arith,
  Bool-cases, Option-cases,
}
use omj_agent.State.{recent_outcome}
use omj_agent.Client.Backoff.{Floats}
use omj_agent.Client.Retry.{RetryResult, done, running, failed, retry}
use omj_agent.Client.Retry.Outcomes.{retry-ne-running}
use omj_agent.Agent.Types.{RunLease, Agent}
use omj_agent.Agent.Registry.{get}
use omj_agent.Agent.Terms.{VerifiedLease, verify}
use omj_agent.Agent.Lease.{
  Outside, start, start_backoff, attempt, confirmed, handle_verified, handle_lease,
}
use omj_agent.Agent.Lease.Cases.{has_slot}

result-running :
    (r : RetryResult)
    → elim r as (λ x. Option Bool) [ done ↦ some true | failed e ↦ some false | running ↦ none ]
      ≡ none
    → r ≡ running
result-running done e = absurd (ground (arith, e))
result-running running e = refl
result-running (failed x) e = absurd (ground (arith, e))

module _ (fl : Floats) (w : Outside fl) (fuel n : ℕ) (expires : (d : ℕ) → w.sleep n d ≢ none)
    (enough : n < fuel) where
  start-ne-none : (v : VerifiedLease) → (start fl w fuel v).0 ≢ none
  unfolding start
  start-ne-none v e =
      retry-ne-running fl w.random (attempt fl w v) w.sleep n (λ s d err _ _. expires d) fuel 0
        (start_backoff fl w) [] (omega arith) (omega (arith, enough))
        (result-running
          (retry fl w.random (attempt fl w v) w.sleep fuel 0 (start_backoff fl w) []).result e)

  confirmed-ne-none : (v : VerifiedLease) (a : Agent) → confirmed fl w fuel v a ≢ none
  unfolding confirmed
  confirmed-ne-none v a = elim (Option-cases (start fl w fuel v).0) [
    | inl q ↦ absurd (start-ne-none v q)
    | inr (true, q) ↦ rw (q, confirmed) (λ e. ground (arith, e))
    | inr (false, q) ↦ rw (q, confirmed) (λ e. ground (arith, e))
  ]

  verified-ne-none :
      (v : VerifiedLease) (cancelled : Bool) (a : Agent)
      → handle_verified fl w fuel v cancelled a ≢ none
  unfolding handle_verified
  verified-ne-none v true a = λ e. ground (arith, e)
  verified-ne-none v false a = elim (Bool-cases (has_slot a)) [
    | inl s ↦ rw (s, handle_verified) (confirmed-ne-none v a)
    | inr s ↦ rw (s, handle_verified) (λ e. ground (arith, e))
  ]

  -- If the n-th sleep of the start request fails, as it does once the lease has expired, then fuel
  -- for n + 1 attempts is enough: the handler returns.
  pub handle_lease-ne-none :
      (lease : RunLease) (cancelled : Bool) (a : Agent)
      → handle_lease fl w fuel lease cancelled a ≢ none
  unfolding handle_lease
  handle_lease-ne-none lease cancelled a = elim (Option-cases (get lease.run_id a.registry)) [
    | inr (run, g) ↦ rw (g, handle_lease) (λ e. ground (arith, e))
    | inl g ↦ elim (Option-cases (recent_outcome lease.run_id a.store)) [
      | inr (o, r) ↦ rw (g, r, handle_lease) (λ e. ground (arith, e))
      | inl r ↦ elim (⊎-cases (verify w.verified_at a lease)) [
        | inl (err, v) ↦ rw (g, r, v, handle_lease) (λ e. ground (arith, e))
        | inr (v, e) ↦ rw (g, r, e, handle_lease) (verified-ne-none v cancelled a)
      ]
    ]
  ]
