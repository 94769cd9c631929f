-- ===== src/Agent/Traces/Once.antt =====
-- The agent of internal/agent starts no run twice.
use omj_agent.Base.{
  ℕ, ◌+◌, ◌≤◌, ◌≡◌, refl, ◌⊎◌, inl, inr, String, Bool, true, ◌||◌, some, List, [], ◌∷◌, ◌++◌,
  is_some, str_eq, eq_iff, arith, All, sym, ◌∙◌, subst, Bool-cases,
}
use text.Mathlib.TextPositions.{eq_refl}
use omj_agent.State.{recent_outcome, Faults}
use omj_agent.State.Recording.{mark_finished-recorded}
use omj_agent.Client.Backoff.{Floats}
use omj_agent.Client.Retry.Outcomes.{retry_inv}
use omj_agent.Agent.Types.{
  RunLease, Agent, Run, Spec, FinishRequest, Event, start_run, finish_run, runner_start,
  process_cancel,
}
use omj_agent.Agent.Registry.{get, add, get-remove}
use omj_agent.Agent.Outcomes.{recorded}
use omj_agent.Agent.Terms.{VerifiedLease, execution_user}
use omj_agent.Agent.Lease.{
  Outside, handle_lease, acknowledge, start, start_backoff, attempt, spawn, launch, warn, spawned,
  not_started, spec_of,
}
use omj_agent.Agent.Lease.Cases.{handle_cases, IsNew}
use omj_agent.Base.{⊎-cases}
use omj_agent.Agent.Lease.Order.{IsOrderly}
use omj_agent.Agent.Lease.Orderly.{handle_lease-IsOrderly}
use omj_agent.Agent.Lease.Spawns.{IsJustified, handle_lease-IsJustified}
use omj_agent.Agent.Delivery.{release, release-IsOrderly}
use omj_agent.Agent.Traces.{spawns, IsKept, IsRemembered, Trace, idle, leases, releases}

abbrev is_owned : String → Agent → Bool
is_owned k a = is_some (get k a.registry)

abbrev is_known : String → Agent → Bool
is_known k a = is_owned k a || is_some (recent_outcome k a.store)

spawns-append :
    (k : String) (es es' : List Event) → spawns k (es ++ es') ≡ spawns k es + spawns k es'
spawns-append k [] es' = omega arith
spawns-append k (runner_start spec ∷ es) es' = ground (arith, spawns-append k es es')
spawns-append k (start_run run_id request ∷ es) es' = spawns-append k es es'
spawns-append k (finish_run run_id request ∷ es) es' = spawns-append k es es'
spawns-append k (process_cancel run_id reason ∷ es) es' = spawns-append k es es'

get-add :
    (k : String) (run : Run) (rs : List Run)
    → is_some (get k rs) ≡ true
    → is_some (get k (add run rs)) ≡ true
unfolding get add
get-add k run [] h = absurd (ground (arith, h))
get-add k run (r ∷ rs) h = ground (arith, h, get-add k run rs)

get-added : (run : Run) (rs : List Run) → is_some (get run.lease.run_id (add run rs)) ≡ true
unfolding get add
get-added run [] = ground (arith, eq_refl run.lease.run_id)
get-added run (r ∷ rs) = ground (arith, get-added run rs)

module _ (fl : Floats) (k : String) where
  -- What one lease does to the count.
  abbrev Counts : Agent → Agent → List Event → Type 0
  Counts a a' es =
      (spawns k es ≤ 1)
      × ((spawns k es ≡ 0) ⊎ (is_owned k a' ≡ true))
      × (is_owned k a ≡ true → is_owned k a' ≡ true)

  acknowledge-spawns : (run : Run) → spawns k (acknowledge run) ≡ 0
  unfolding acknowledge
  acknowledge-spawns run = ground arith

  start-spawns :
      (w : Outside fl) (fuel : ℕ) (v : VerifiedLease) → spawns k (start fl w fuel v).1 ≡ 0
  unfolding start
  start-spawns w fuel v =
      retry_inv fl w.random (attempt fl w v) w.sleep (λ es. spawns k es ≡ 0)
        (λ i es h. spawns-append k es _ ∙ ground (arith, h)) fuel 0 (start_backoff fl w) [] refl

  one_spawn :
      (spec : Spec)
      → (spawns k (runner_start spec ∷ []) ≤ 1)
        × ((spawns k (runner_start spec ∷ []) ≡ 0) ⊎ (spec.run_id ≡ k))
  one_spawn spec = ground (arith, eq_iff spec.run_id k)

  -- `spawn` starts a process for its own run only, and keeps the registry.
  spawn-spawns :
      (w : Outside fl) (v : VerifiedLease) (a : Agent)
      → let ((run, a'), es) = spawn fl w v a in
        (spawns k es ≤ 1)
        × ((spawns k es ≡ 0) ⊎ (run.lease.run_id ≡ k))
        × (a'.registry ≡ a.registry)
  unfolding spawn spawned not_started
  spawn-spawns w v a = elim (⊎-cases (execution_user a.run_as_allowed v.lease)) [
    | inl (err, e) ↦ rw (e, spawn) (omega arith, inl refl, refl)
    | inr (user, e) ↦
        let one = one_spawn (spec_of a.conf v user) in
        elim (⊎-cases (w.launch_process (spec_of a.conf v user))) [
          | inl (err, l) ↦ rw (e, spawn, l) (one.0, one.1, refl)
          | inr (process, l) ↦ rw (e, spawn, l) (one.0, one.1, refl)
        ]
  ]

  accepted-Counts :
      (w : Outside fl) (fuel : ℕ) (v : VerifiedLease) (a : Agent)
      → Counts a
          (launch (spawn fl w v a).0.0 (spawn fl w v a).0.1)
          ((start fl w fuel v).1 ++ (spawn fl w v a).1)
  unfolding launch
  accepted-Counts w fuel v a =
      let ((run, a'), es) = spawn fl w v a in
      let (few, own, same) = spawn-spawns w v a in
      let total = spawns-append k (start fl w fuel v).1 es in
      let none_before = start-spawns w fuel v in
      (
        omega (arith, few, total, none_before),
        elim own [
          | inl z ↦ inl (omega (arith, z, total, none_before))
          | inr same_run ↦ inr (
              subst (λ j. is_some (get j (add run a'.registry)) ≡ true) same_run
                (get-added run a'.registry))
        ],
        λ h. get-add k run a'.registry (subst (λ rs. is_some (get k rs) ≡ true) (sym same) h),
      )

  handle_lease-Counts :
      (w : Outside fl) (fuel : ℕ) (lease : RunLease) (cancelled : Bool) (a a' : Agent)
      (es : List Event)
      → handle_lease fl w fuel lease cancelled a ≡ some (a', es)
      → Counts a a' es
  unfolding launch warn
  handle_lease-Counts w fuel lease cancelled a a' es =
      handle_cases fl w fuel lease cancelled a (Counts a)
        (λ run g. (ground (arith, acknowledge-spawns run), inl (acknowledge-spawns run), λ h. h))
        (λ o g r. (omega arith, inl refl, λ h. h)) (λ err new e. (omega arith, inl refl, λ h. h))
        (λ v new e c. (omega arith, inl refl, get-add k _ a.registry))
        (λ v new e c s. (omega arith, inl refl, λ h. h))
        (λ v new e c s q.
          (ground (arith, start-spawns w fuel v), inl (start-spawns w fuel v), λ h. h))
        (λ v new e c s q. accepted-Counts w fuel v a) a' es

  -- A run that is known is not started.
  known-spawns :
      (w : Outside fl) (lease : RunLease) (cancelled : Bool) (a : Agent) (es : List Event)
      → is_known k a ≡ true
      → All (IsJustified fl w lease cancelled a) es
      → spawns k es ≡ 0
  known-spawns w lease cancelled a [] h j = refl
  known-spawns w lease cancelled a (runner_start spec ∷ es) h j =
      let rest = known-spawns w lease cancelled a es h j.1 in
      elim (Bool-cases (str_eq spec.run_id k)) [
        | inr f ↦ ground (arith, f, rest)
        | inl t ↦
            let same : lease.run_id ≡ k = sym j.0.5 ∙ (eq_iff spec.run_id k).0 t in
            let new = subst (λ i. IsNew i a) same j.0.0 in absurd (ground (arith, h, new.0, new.1))
      ]
  known-spawns w lease cancelled a (start_run run_id request ∷ es) h j =
      known-spawns w lease cancelled a es h j.1
  known-spawns w lease cancelled a (finish_run run_id request ∷ es) h j =
      known-spawns w lease cancelled a es h j.1
  known-spawns w lease cancelled a (process_cancel run_id reason ∷ es) h j =
      known-spawns w lease cancelled a es h j.1

  release-known :
      (now : ℕ) (io : Faults) (j : String) (request : FinishRequest) (a : Agent)
      → IsOrderly a
      → IsKept k a (release now io j request a)
      → is_known k a ≡ true
      → is_known k (release now io j request a) ≡ true
  unfolding release
  release-known now io j request a o kept h = elim (Bool-cases (str_eq j k)) [
    | inr f ↦ ground (arith, h, kept, (get-remove j k a.registry o.single).1 f)
    | inl t ↦
        subst (λ i. is_known i (release now io j request a) ≡ true) ((eq_iff j k).0 t)
          (ground (arith, (mark_finished-recorded now io j (recorded request) a.store o.store).1))
  ]

  Trace-known :
      (a b : Agent) (es : List Event) (t : Trace fl a es b)
      → IsRemembered fl k a b es t
      → IsOrderly a
      → is_known k a ≡ true
      → spawns k es ≡ 0
  unfolding IsRemembered
  Trace-known a b es (idle _) r o h = refl
  Trace-known a b es (leases w fuel lease cancelled _ a' _ es₁ es₂ visits e t) r o h =
      let none_now =
        known-spawns w lease cancelled a es₁ h
          (handle_lease-IsJustified fl w lease cancelled a fuel a' es₁ e) in
      let (few, own, stays) = handle_lease-Counts w fuel lease cancelled a a' es₁ e in
      let later =
        Trace-known a' b es₂ t r.1
          (handle_lease-IsOrderly fl w visits fuel lease cancelled a a' es₁ o e)
          (ground (arith, h, r.0, stays)) in
      spawns-append k es₁ es₂ ∙ omega (arith, none_now, later)
  Trace-known a b es (releases now io j request _ _ _ t) r o h =
      Trace-known (release now io j request a) b es t r.1 (release-IsOrderly now io j request a o)
        (release-known now io j request a o r.0 h)

  -- From an agent in order, however leases and releases follow one another, and whatever the server,
  -- the runner and the file system answer: a process is started for a run once at most, if no step
  -- drops the run's outcome from the record.
  pub Trace-once :
      (a b : Agent) (es : List Event) (t : Trace fl a es b)
      → IsRemembered fl k a b es t
      → IsOrderly a
      → spawns k es ≤ 1
  unfolding IsRemembered
  Trace-once a b es (idle _) r o = omega arith
  Trace-once a b es (leases w fuel lease cancelled _ a' _ es₁ es₂ visits e t) r o =
      let (few, own, stays) = handle_lease-Counts w fuel lease cancelled a a' es₁ e in
      let o' = handle_lease-IsOrderly fl w visits fuel lease cancelled a a' es₁ o e in
      let total = spawns-append k es₁ es₂ in
      elim own [
        | inl z ↦ omega (arith, total, z, Trace-once a' b es₂ t r.1 o')
        | inr owned ↦
            omega (arith, total, few, Trace-known a' b es₂ t r.1 o' (ground (arith, owned)))
      ]
  Trace-once a b es (releases now io j request _ _ _ t) r o =
      Trace-once (release now io j request a) b es t r.1 (release-IsOrderly now io j request a o)
