-- ===== src/Agent/Traces.antt =====
-- The agent of internal/agent over time: leases that the poll loop handles and runs that the reporters
-- release, in any order. Each lease meets its own answers.
pub mod Once
use omj_agent.Base.{
  ℕ, suc, ◌≡◌, String, Bool, true, false, some, List, [], ◌∷◌, ◌++◌, if◌then◌else◌, is_some, str_eq,
}
use omj_agent.Output.Buffer.Largest.{IsVisit}
use omj_agent.State.{Faults, recent_outcome}
use omj_agent.Client.Backoff.{Floats}
use omj_agent.Agent.Types.{
  RunLease, Agent, FinishRequest, Event, start_run, finish_run, runner_start, process_cancel,
}
use omj_agent.Agent.Lease.{Outside, handle_lease}
use omj_agent.Agent.Delivery.{release}

-- How often a process was started for the run.
abbrev pub spawns : String → List Event → ℕ
spawns k [] = 0
spawns k (runner_start spec ∷ es) = let n = spawns k es in if str_eq spec.run_id k then suc n else n
spawns k (start_run run_id request ∷ es) = spawns k es
spawns k (finish_run run_id request ∷ es) = spawns k es
spawns k (process_cancel run_id reason ∷ es) = spawns k es

-- The outcome of the run is not dropped from the record.
abbrev pub IsKept : String → Agent → Agent → Type 0
IsKept k a a' =
    is_some (recent_outcome k a.store) ≡ true → is_some (recent_outcome k a'.store) ≡ true

-- A sequence of leases and releases, with all calls made.
pub data Trace (fl : Floats) : Agent → List Event → Agent → Type 0 where
  idle : (a : Agent) → Trace fl a [] a
  leases :
      (w : Outside fl) (fuel : ℕ) (lease : RunLease) (cancelled : Bool) (a a' b : Agent)
      (es es' : List Event)
      → IsVisit w.visit
      → handle_lease fl w fuel lease cancelled a ≡ some (a', es)
      → Trace fl a' es' b
      → Trace fl a (es ++ es') b
  releases :
      (now : ℕ) (io : Faults) (j : String) (request : FinishRequest) (a b : Agent) (es : List Event)
      → Trace fl (release now io j request a) es b
      → Trace fl a es b

-- No step of the sequence drops the outcome of the run.
unfoldable pub IsRemembered :
    (fl : Floats) (k : String) (a b : Agent) (es : List Event) → Trace fl a es b → Type 0
IsRemembered fl k a b es (idle _) = Unit
IsRemembered fl k a b es (leases w fuel lease cancelled _ a' _ es₁ es₂ visits e t) =
    IsKept k a a' × IsRemembered fl k a' b es₂ t
IsRemembered fl k a b es (releases now io j request _ _ _ t) =
    IsKept k a (release now io j request a) × IsRemembered fl k (release now io j request a) b es t
