-- ===== src/Agent/Lease/Spawns.antt =====
-- When internal/agent/lease.go starts a process.
use omj_agent.Base.{
  ⊎-cases, ℕ, ◌≡◌, refl, ◌⊎◌, inl, inr, String, Bool, true, false, ◌||◌, none, some, List, [],
  arith, All, All-append, subst, ap, sym, ◌∙◌, contains_func, str_eq, eq_iff, is_empty_str,
  Bool-cases,
}
use omj_agent.State.{RecentRun, recent_outcome}
use omj_agent.Client.Backoff.{Floats}
use omj_agent.Client.Retry.{RetryResult, done, running, failed, retry}
use omj_agent.Client.Retry.Outcomes.{Explains, retry-Explains, retry_inv}
use omj_agent.Agent.Types.{
  RunLease, Agent, Run, Spec, Event, start_run, finish_run, runner_start, process_cancel,
}
use omj_agent.Agent.Registry.{get, get_id}
use omj_agent.Agent.Outcomes.{resend_request}
use omj_agent.Agent.Terms.{VerifiedLease, verify, execution_user, deref}
use omj_agent.Agent.Lease.{
  Outside, start, start_backoff, attempt, spawn, handle_lease, acknowledge, spec_of,
}
use omj_agent.Agent.Lease.Verified.{IsGood, verify_iff, execution_user_lem}
use omj_agent.Agent.Lease.Cases.{IsNew, has_slot, handle_cases}

result_done :
    (r : RetryResult)
    → elim r [ done ↦ some true | failed e ↦ some false | running ↦ none ] ≡ some true
    → r ≡ done
result_done done e = refl
result_done running e = absurd (ground (arith, e))
result_done (failed x) e = absurd (ground (arith, e))

module _ (fl : Floats) (w : Outside fl) (lease : RunLease) (cancelled : Bool) (a : Agent) where
  -- What has to hold before a process is started.
  abbrev pub IsPermitted : Spec → Type 0
  IsPermitted spec =
      IsNew lease.run_id a
      × IsGood w.verified_at a lease
      × (cancelled ≡ false)
      × (has_slot a ≡ true)
      × ((i : ℕ) × (w.confirm i ≡ none))
      × (spec.run_id ≡ lease.run_id)
      × (spec.command ≡ lease.command)
      × (spec.machine_id ≡ lease.machine_id)
      × (spec.run_as ≡ deref lease.run_as)
      × ((is_empty_str spec.run_as || contains_func (λ n. str_eq n spec.run_as) a.run_as_allowed)
          ≡ true)

  -- What each call that the agent makes for the lease rests on.
  abbrev pub IsJustified : Event → Type 0
  IsJustified (start_run run_id request) =
      (run_id ≡ lease.run_id)
      × (((run : Run) × (get run_id a.registry ≡ some run) × (run.start_accepted ≡ true))
          ⊎ (IsNew run_id a × IsGood w.verified_at a lease × (has_slot a ≡ true)))
  IsJustified (finish_run run_id request) =
      (run_id ≡ lease.run_id)
      × ((o : RecentRun) × (recent_outcome run_id a.store ≡ some o) × (request ≡ resend_request o))
  IsJustified (runner_start spec) = IsPermitted spec
  IsJustified (process_cancel run_id reason) = ⊥

  acknowledge-IsJustified :
      (run : Run) → get lease.run_id a.registry ≡ some run → All IsJustified (acknowledge run)
  unfolding acknowledge
  acknowledge-IsJustified run g = elim (Bool-cases run.start_accepted) [
    | inr f ↦ rw (f, acknowledge) tt
    | inl t ↦
        let same = get_id lease.run_id a.registry run g in
        rw (t, acknowledge) ((same, inl (run, ap (λ k. get k a.registry) same ∙ g, t)), tt)
  ]

  start-IsJustified :
      (fuel : ℕ) (v : VerifiedLease)
      → IsNew lease.run_id a
      → verify w.verified_at a lease ≡ inr v
      → has_slot a ≡ true
      → All IsJustified (start fl w fuel v).1
  unfolding start
  start-IsJustified fuel v new e s =
      let same : v.lease.run_id ≡ lease.run_id =
        ap (λ x. x.lease.run_id) ((verify_iff w.verified_at a lease v).0 e).1 in
      let good = ((verify_iff w.verified_at a lease v).0 e).0 in
      retry_inv fl w.random (attempt fl w v) w.sleep (All IsJustified)
        (λ i es h.
          All-append IsJustified es _ h
            ((same, inr (subst (λ k. IsNew k a) (sym same) new, good, s)), tt))
        fuel 0 (start_backoff fl w) [] tt

  start-confirmed :
      (fuel : ℕ) (v : VerifiedLease)
      → (start fl w fuel v).0 ≡ some true
      → (i : ℕ) × (w.confirm i ≡ none)
  unfolding start
  start-confirmed fuel v e =
      let r = retry fl w.random (attempt fl w v) w.sleep fuel 0 (start_backoff fl w) [] in
      let (i, es, q) =
        subst (λ x. Explains fl w.random (attempt fl w v) w.sleep x r.state)
          (result_done r.result e)
          (retry-Explains fl w.random (attempt fl w v) w.sleep fuel 0 (start_backoff fl w) []) in
      (i, ap (λ x. x.1) q)

  spec-IsPermitted :
      (fuel : ℕ) (v : VerifiedLease) (user : String)
      → IsNew lease.run_id a
      → verify w.verified_at a lease ≡ inr v
      → cancelled ≡ false
      → has_slot a ≡ true
      → (start fl w fuel v).0 ≡ some true
      → execution_user a.run_as_allowed v.lease ≡ inr user
      → IsPermitted (spec_of a.conf v user)
  spec-IsPermitted fuel v user new e c s q u =
      let (good, limits) = (verify_iff w.verified_at a lease v).0 e in
      let same : v.lease ≡ lease = ap (λ x. x.lease) limits in
      let (name, allowed) = (execution_user_lem a.run_as_allowed v.lease user).0 u in
      (
        new,
        good,
        c,
        s,
        start-confirmed fuel v q,
        ap (λ l. l.run_id) same,
        ap (λ l. l.command) same,
        sym ((eq_iff lease.machine_id a.conf.machine_id).0 good.1),
        name ∙ ap (λ l. deref l.run_as) same,
        subst (λ n. (is_empty_str n || contains_func (λ m. str_eq m n) a.run_as_allowed) ≡ true)
            (sym name) allowed,
      )

  spawn-IsJustified :
      (fuel : ℕ) (v : VerifiedLease)
      → IsNew lease.run_id a
      → verify w.verified_at a lease ≡ inr v
      → cancelled ≡ false
      → has_slot a ≡ true
      → (start fl w fuel v).0 ≡ some true
      → All IsJustified (spawn fl w v a).1
  unfolding spawn
  spawn-IsJustified fuel v new e c s q = elim (⊎-cases (execution_user a.run_as_allowed v.lease)) [
    | inl (err, u) ↦ rw (u, spawn) tt
    | inr (user, u) ↦ rw (u, spawn) (spec-IsPermitted fuel v user new e c s q u, tt)
  ]

  -- A process is started only for a run that the agent neither owns nor has on record, that the
  -- server did not cancel, on a lease for this machine that has not expired and has a command, with
  -- a slot free, after the server confirmed the start, and as a user that the machine allows. A
  -- start is requested only for such a run or for one that is owned and accepted, and an outcome
  -- is sent again only for a run on record, as recorded.
  pub handle_lease-IsJustified :
      (fuel : ℕ) (a' : Agent) (es : List Event)
      → handle_lease fl w fuel lease cancelled a ≡ some (a', es)
      → All IsJustified es
  handle_lease-IsJustified fuel =
      handle_cases fl w fuel lease cancelled a (λ _ es. All IsJustified es)
        (λ run g. acknowledge-IsJustified run g) (λ o g r. ((refl, (o, r, refl)), tt))
        (λ err new e. tt) (λ v new e c. tt) (λ v new e c s. tt)
        (λ v new e c s q. start-IsJustified fuel v new e s)
        (λ v new e c s q.
          All-append IsJustified (start fl w fuel v).1 (spawn fl w v a).1
            (start-IsJustified fuel v new e s) (spawn-IsJustified fuel v new e c s q))
