-- ===== src/Agent/Delivery.antt =====
-- The end of `deliver` of internal/agent/reporter.go, and the release of the run in `launch` of
-- internal/agent/agent.go; and what the agent answers when the run is leased again.
use omj_agent.Base.{
  ℕ, ◌≤◌, ◌≡◌, refl, String, Bool, false, none, some, List, [], ◌∷◌, arith, All, ap, ◌∙◌,
  Bool-cases, inl, inr,
}
use omj_agent.Output.Buffer.{forget}
use omj_agent.Output.Buffer.Acknowledged.{forget-IsValid}
use omj_agent.State.{RecentRun, Faults, mark_finished, recent_outcome}
use omj_agent.State.Recording.{save-IsBounded, mark_finished-recorded}
use omj_agent.Client.Backoff.{Floats}
use omj_agent.Agent.Types.{RunLease, Agent, Run, FinishRequest, finish_run}
use omj_agent.Agent.Registry.{get, remove, remove-IsSingle, get-remove, is_run_of}
use omj_agent.Agent.Outcomes.{recorded, resend_request, resend_request-recent_of}
use omj_agent.Agent.Lease.{Outside, handle_lease}
use omj_agent.Agent.Lease.Order.{IsOrderly, IsLaunched, processes}

-- The outcome goes on record, the output goes, and then the run leaves the registry.
unfoldable pub release : ℕ → Faults → String → FinishRequest → Agent → Agent
release now io run_id request a = record a {
  store = (mark_finished now io run_id (recorded request) a.store).0;
  buffer = forget run_id a.buffer;
  registry = remove run_id a.registry;
}

processes-remove : (run_id : String) (rs : List Run) → processes (remove run_id rs) ≤ processes rs
unfolding remove
processes-remove run_id [] = omega arith
processes-remove run_id (r ∷ rs) = ground (arith, processes-remove run_id rs)

IsLaunched-remove :
    (run_id : String) (rs : List Run) → All IsLaunched rs → All IsLaunched (remove run_id rs)
unfolding remove
IsLaunched-remove run_id [] h = tt
IsLaunched-remove run_id (r ∷ rs) h = elim (Bool-cases (is_run_of run_id r)) [
  | inl t ↦ rw (t, remove) h.1
  | inr f ↦ rw (f, remove) (h.0, IsLaunched-remove run_id rs h.1)
]

-- A run that is released leaves the agent in order.
pub release-IsOrderly :
    (now : ℕ) (io : Faults) (run_id : String) (request : FinishRequest) (a : Agent)
    → IsOrderly a
    → IsOrderly (release now io run_id request a)
unfolding release mark_finished
release-IsOrderly now io run_id request a o = record {
  single = remove-IsSingle run_id a.registry o.single;
  slots = omega (arith, processes-remove run_id a.registry, o.slots);
  launched = IsLaunched-remove run_id a.registry o.launched;
  buffer = forget-IsValid run_id a.buffer o.buffer;
  store = save-IsBounded now io _;
}

handle_lease-finished :
    (fl : Floats) (w : Outside fl) (fuel : ℕ) (lease : RunLease) (cancelled : Bool) (a : Agent)
    (o : RecentRun)
    → get lease.run_id a.registry ≡ none
    → recent_outcome lease.run_id a.store ≡ some o
    → handle_lease fl w fuel lease cancelled a
      ≡ some (a, finish_run lease.run_id (resend_request o) ∷ [])
unfolding handle_lease
handle_lease-finished fl w fuel lease cancelled a o g r = rw (g, r, handle_lease) refl

-- A run whose outcome has been recorded is not run again: to a repeated lease the agent answers with
-- the outcome it reported, the time being that of the record, and changes nothing.
pub handle_lease-release :
    (fl : Floats) (w : Outside fl) (fuel : ℕ) (lease : RunLease) (cancelled : Bool) (now : ℕ)
    (io : Faults) (request : FinishRequest) (a : Agent)
    → IsOrderly a
    → let a' = release now io lease.run_id request a in
      handle_lease fl w fuel lease cancelled a'
      ≡ some (
        a',
        finish_run lease.run_id
              (record request { finished_at = now; last_output_seq = 0; output_truncated = false })
            ∷ [],
      )
unfolding release
handle_lease-release fl w fuel lease cancelled now io request a o =
    let gone : get lease.run_id (remove lease.run_id a.registry) ≡ none =
      (get-remove lease.run_id lease.run_id a.registry o.single).0 in
    let known = (mark_finished-recorded now io lease.run_id (recorded request) a.store o.store).1 in
    let a' = release now io lease.run_id request a in
    handle_lease-finished fl w fuel lease cancelled a' _ gone known
    ∙ ap (λ r. some (a', finish_run lease.run_id r ∷ []))
        (resend_request-recent_of now lease.run_id request)
