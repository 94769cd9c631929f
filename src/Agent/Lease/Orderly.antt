-- ===== src/Agent/Lease/Orderly.antt =====
-- What every lease keeps of the agent: internal/agent/lease.go.
use omj_agent.Base.{
  ⊎-cases, ℕ, ◌≤◌, ◌<◌, ◌≡◌, refl, ◌⊎◌, inl, inr, String, Bool, true, none, some, List, [], ◌∷◌,
  ◌++◌, to_ℕ, arith, All, subst, ap, sym, ◌∙◌,
}
use omj_agent.Protocol.{is_valid_reason}
use omj_agent.Output.Chunk.{stderr}
use omj_agent.Output.Chunker.{write, close}
use omj_agent.Output.Buffer.Sizes.{IsValid}
use omj_agent.Output.Buffer.Largest.{IsVisit}
use omj_agent.State.{mark_active}
use omj_agent.State.Recording.{IsBounded, save-IsBounded}
use omj_agent.Client.Backoff.{Floats}
use omj_agent.Agent.Types.{RunLease, Agent, Run, Process, SpawnError, Event}
use omj_agent.Agent.Registry.{IsSingle, get-IsUnowned, IsUnowned}
use omj_agent.Agent.Terms.{VerifiedLease, verify, execution_user}
use omj_agent.Agent.Lease.{
  Outside, launch, cancelled_run, not_started, spawned, spawn, handle_lease,
}
use omj_agent.Agent.Lease.Verified.{verify_iff}
use omj_agent.Agent.Lease.Cases.{IsNew, has_slot, handle_cases}
use omj_agent.Agent.Lease.Order.{
  IsLaunched, processes, IsOrderly, processes-le, receive-IsValid, has_room, launch-IsOrderly,
  warn-IsOrderly,
}

-- What `spawn` hands to `launch`.
record IsReady (v : VerifiedLease) (a : Agent) (run : Run) (a' : Agent) : Type 0 where
  leased : run.lease ≡ v.lease
  sound : IsLaunched run
  same_registry : a'.registry ≡ a.registry
  same_conf : a'.conf ≡ a.conf
  buffered : IsValid a'.buffer
  stored : IsBounded a'.store

ready-IsOrderly :
    (v : VerifiedLease) (a : Agent) (run : Run) (a' : Agent)
    → IsReady v a run a'
    → IsOrderly a
    → IsOrderly a'
ready-IsOrderly v a run a' r o = record {
  single = subst IsSingle (sym r.same_registry) o.single;
  slots =
      subst (λ rs. processes rs ≤ to_ℕ a'.conf.max_concurrent_runs) (sym r.same_registry)
        (subst (λ c. processes a.registry ≤ to_ℕ c.max_concurrent_runs) (sym r.same_conf) o.slots);
  launched = subst (All IsLaunched) (sym r.same_registry) o.launched;
  buffer = r.buffered;
  store = r.stored;
}

module _ (fl : Floats) (w : Outside fl) (visits : IsVisit w.visit) where
  not_started-IsReady :
      (v : VerifiedLease) (run : Run) (reason : String) (err : SpawnError) (a : Agent)
      → run.lease ≡ v.lease
      → run.process ≡ none
      → is_valid_reason reason ≡ true
      → IsOrderly a
      → let (run', a') = not_started fl w run reason err a in IsReady v a run' a'
  unfolding not_started
  not_started-IsReady v run reason err a l p ok o = record {
    leased = l;
    sound = (ground arith, λ e. ok);
    same_registry = refl;
    same_conf = refl;
    buffered =
        let (c₁, out₁) = write w.written_at stderr (w.error_text err ++ 10 ∷ []) run.chunker in
        receive-IsValid w.visit (out₁ ++ (close c₁).1) a.buffer visits o.buffer;
    stored = o.store;
  }

  spawned-IsReady :
      (v : VerifiedLease) (run : Run) (answer : SpawnError ⊎ Process) (a : Agent)
      → run.lease ≡ v.lease
      → run.process ≡ none
      → run.spawn_err ≡ none
      → IsOrderly a
      → let (run', a') = spawned fl w run answer a in IsReady v a run' a'
  unfolding spawned is_valid_reason mark_active
  spawned-IsReady v run (inl err) a l p e o = not_started-IsReady v run _ err a l p refl o
  spawned-IsReady v run (inr process) a l p e o = record {
    leased = l;
    sound = (refl, λ s. ground (arith, e, s));
    same_registry = refl;
    same_conf = refl;
    buffered = o.buffer;
    stored = save-IsBounded w.saved_at w.faults _;
  }

  spawn-IsReady :
      (v : VerifiedLease) (a : Agent)
      → IsOrderly a
      → let ((run', a'), es) = spawn fl w v a in IsReady v a run' a'
  unfolding spawn is_valid_reason
  spawn-IsReady v a o = elim (⊎-cases (execution_user a.run_as_allowed v.lease)) [
    | inl (err, e) ↦ rw (e, spawn) (not_started-IsReady v _ _ err a refl refl refl o)
    | inr (user, e) ↦ rw (e, spawn) (spawned-IsReady v _ _ a refl refl refl o)
  ]

  leased_id :
      (lease : RunLease) (v : VerifiedLease) (a : Agent)
      → verify w.verified_at a lease ≡ inr v
      → v.lease ≡ lease
  leased_id lease v a e = ap (λ x. x.lease) ((verify_iff w.verified_at a lease v).0 e).1

  stillborn-IsOrderly :
      (lease : RunLease) (v : VerifiedLease) (a : Agent)
      → IsNew lease.run_id a
      → verify w.verified_at a lease ≡ inr v
      → IsOrderly a
      → IsOrderly (launch (cancelled_run a.settings v) a)
  stillborn-IsOrderly lease v a new e o =
      launch-IsOrderly (cancelled_run a.settings v) a o
        (subst (λ l. IsUnowned l.run_id a.registry) (sym (leased_id lease v a e))
          (get-IsUnowned lease.run_id a.registry new.0))
        (refl, λ n. absurd (ground (arith, n))) (λ n. absurd (ground (arith, n)))

  accepted-IsOrderly :
      (lease : RunLease) (v : VerifiedLease) (a : Agent)
      → IsNew lease.run_id a
      → verify w.verified_at a lease ≡ inr v
      → has_slot a ≡ true
      → IsOrderly a
      → let ((run, a'), es) = spawn fl w v a in IsOrderly (launch run a')
  accepted-IsOrderly lease v a new e s o =
      let ((run, a'), es) = spawn fl w v a in
      let r = spawn-IsReady v a o in
      launch-IsOrderly run a' (ready-IsOrderly v a run a' r o)
        (subst (λ l. IsUnowned l.run_id a'.registry) (sym (r.leased ∙ leased_id lease v a e))
          (subst (IsUnowned lease.run_id) (sym r.same_registry)
            (get-IsUnowned lease.run_id a.registry new.0)))
        r.sound
        (λ p.
          subst (λ rs. processes rs < to_ℕ a'.conf.max_concurrent_runs) (sym r.same_registry)
            (subst (λ c. processes a.registry < to_ℕ c.max_concurrent_runs) (sym r.same_conf)
              (omega (arith, processes-le a.registry, has_room a s))))

  -- However a lease is handled, and in whatever orders the buffer's map is visited, these stay true of
  -- the agent: no run is owned twice, the processes fit the slots, each run has a process or an
  -- outcome that can be reported, the buffer's counts are exact and within its cap, and no more
  -- outcomes are on record than the limit.
  pub handle_lease-IsOrderly :
      (fuel : ℕ) (lease : RunLease) (cancelled : Bool) (a a' : Agent) (es : List Event)
      → IsOrderly a
      → handle_lease fl w fuel lease cancelled a ≡ some (a', es)
      → IsOrderly a'
  handle_lease-IsOrderly fuel lease cancelled a a' es o =
      handle_cases fl w fuel lease cancelled a (λ b _. IsOrderly b) (λ run g. o) (λ out g r. o)
        (λ err new e. warn-IsOrderly lease.run_id a o)
        (λ v new e c. stillborn-IsOrderly lease v a new e o)
        (λ v new e c s. warn-IsOrderly v.lease.run_id a o) (λ v new e c s q. o)
        (λ v new e c s q. accepted-IsOrderly lease v a new e s o) a' es
