-- ===== src/Agent/Lease/Cases.antt =====
-- The ways through `handleLease` of internal/agent/lease.go.
use omj_agent.Base.{
  ⊎-cases, ℕ, ◌≡◌, inl, inr, String, Bool, true, false, Option, none, some, List, [], ◌∷◌, ◌++◌,
  ltb_ℤ, pos, Bool-cases, Option-cases, subst,
}
use omj_agent.State.{RecentRun, recent_outcome}
use omj_agent.Client.Backoff.{Floats}
use omj_agent.Agent.Types.{RunLease, Agent, Run, Event, finish_run}
use omj_agent.Agent.Registry.{get, count}
use omj_agent.Agent.Outcomes.{resend_request}
use omj_agent.Agent.Terms.{VerifiedLease, LeaseError, verify}
use omj_agent.Agent.Lease.{
  Outside, warn, launch, acknowledge, cancelled_run, start, spawn, confirmed, handle_verified,
  handle_lease,
}

-- A run that the agent neither owns nor has on record.
abbrev pub IsNew : String → Agent → Type 0
IsNew run_id a = (get run_id a.registry ≡ none) × (recent_outcome run_id a.store ≡ none)

abbrev pub has_slot : Agent → Bool
has_slot a = ltb_ℤ (pos (count a.registry)) a.conf.max_concurrent_runs

abbrev pub Holds : (Agent → List Event → Type 0) → Option (Agent × List Event) → Type 0
Holds P none = Unit
Holds P (some (a, es)) = P a es

-- What holds of each way through holds of what the handler returns.
module _ (fl : Floats) (w : Outside fl) (fuel : ℕ) (lease : RunLease) (cancelled : Bool) (a : Agent)
    (P : Agent → List Event → Type 0)
    (known : (run : Run) → get lease.run_id a.registry ≡ some run → P a (acknowledge run))
    (finished : (o : RecentRun)
      → get lease.run_id a.registry ≡ none
      → recent_outcome lease.run_id a.store ≡ some o
      → P a (finish_run lease.run_id (resend_request o) ∷ []))
    (refused : (err : LeaseError)
      → IsNew lease.run_id a
      → verify w.verified_at a lease ≡ inl err
      → P (warn lease.run_id a) [])
    (stillborn : (v : VerifiedLease)
      → IsNew lease.run_id a
      → verify w.verified_at a lease ≡ inr v
      → cancelled ≡ true
      → P (launch (cancelled_run a.settings v) a) [])
    (full : (v : VerifiedLease)
      → IsNew lease.run_id a
      → verify w.verified_at a lease ≡ inr v
      → cancelled ≡ false
      → has_slot a ≡ false
      → P (warn v.lease.run_id a) [])
    (unconfirmed : (v : VerifiedLease)
      → IsNew lease.run_id a
      → verify w.verified_at a lease ≡ inr v
      → cancelled ≡ false
      → has_slot a ≡ true
      → (start fl w fuel v).0 ≡ some false
      → P a (start fl w fuel v).1)
    (accepted : (v : VerifiedLease)
      → IsNew lease.run_id a
      → verify w.verified_at a lease ≡ inr v
      → cancelled ≡ false
      → has_slot a ≡ true
      → (start fl w fuel v).0 ≡ some true
      → P
          (launch (spawn fl w v a).0.0 (spawn fl w v a).0.1)
          ((start fl w fuel v).1 ++ (spawn fl w v a).1)) where
  confirmed_rule :
      (v : VerifiedLease)
      → IsNew lease.run_id a
      → verify w.verified_at a lease ≡ inr v
      → cancelled ≡ false
      → has_slot a ≡ true
      → Holds P (confirmed fl w fuel v a)
  unfolding confirmed
  confirmed_rule v new e c s = elim (Option-cases (start fl w fuel v).0) [
    | inl q ↦ rw (q, confirmed) tt
    | inr (true, q) ↦ rw (q, confirmed) (accepted v new e c s q)
    | inr (false, q) ↦ rw (q, confirmed) (unconfirmed v new e c s q)
  ]

  verified_rule :
      (v : VerifiedLease)
      → IsNew lease.run_id a
      → verify w.verified_at a lease ≡ inr v
      → Holds P (handle_verified fl w fuel v cancelled a)
  unfolding handle_verified
  verified_rule v new e = elim (Bool-cases cancelled) [
    | inl c ↦ rw (c, handle_verified) (stillborn v new e c)
    | inr c ↦ elim (Bool-cases (has_slot a)) [
      | inl s ↦ rw (c, s, handle_verified) (confirmed_rule v new e c s)
      | inr s ↦ rw (c, s, handle_verified) (full v new e c s)
    ]
  ]

  handle_rule : Holds P (handle_lease fl w fuel lease cancelled a)
  unfolding handle_lease
  handle_rule = elim (Option-cases (get lease.run_id a.registry)) [
    | inr (run, g) ↦ rw (g, handle_lease) (known run g)
    | inl g ↦ elim (Option-cases (recent_outcome lease.run_id a.store)) [
      | inr (o, r) ↦ rw (g, r, handle_lease) (finished o g r)
      | inl r ↦ elim (⊎-cases (verify w.verified_at a lease)) [
        | inl (err, e) ↦ rw (g, r, e, handle_lease) (refused err (g, r) e)
        | inr (v, e) ↦ rw (g, r, e, handle_lease) (verified_rule v (g, r) e)
      ]
    ]
  ]

  -- The same, for a result that the handler is known to return.
  pub handle_cases :
      (a' : Agent) (es : List Event)
      → handle_lease fl w fuel lease cancelled a ≡ some (a', es)
      → P a' es
  handle_cases a' es e = subst (Holds P) e handle_rule
