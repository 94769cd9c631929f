-- ===== src/Agent/Reporter/Delivered.antt =====
-- How `drain` of internal/agent/reporter.go ends.
use omj_agent.Base.{ℕ, ◌≤◌, ◌≡◌, String, Bool, true, some, List, ◌==◌, length, ◌⊎◌, inr}
use omj_agent.Output.Chunk.{Chunk}
use omj_agent.Output.Buffer.{Buffer, next_batch}
use omj_agent.Client.Errors.{ClientError}
use omj_agent.Client.Backoff.{Floats, Backoff}
use omj_agent.Client.Retry.{RetryResult, retry}
use omj_agent.Client.Retry.Outcomes.{Ends}
use omj_agent.Agent.Reporter.{OutputResponse}
use omj_agent.Agent.Reporter.Drain.{
  Ending, delivered, interrupted, out_of_fuel, Link, Draining, attempt_output, settle,
}
use omj_agent.Agent.Reporter.Drained.{pending, Covers}

module _ (fl : Floats) (run_id : String) (has_process : Bool) (l : Link fl run_id has_process) where
  -- What an ending says: the server wants no more output or none is left; or the context has ended.
  abbrev pub Explains : Draining fl run_id has_process × Ending → Type 0
  Explains (p, delivered) =
      (p.output_done ≡ true) ⊎ ((length (next_batch run_id p.buffer) == 0) ≡ true)
  Explains (p, interrupted) = (k : ℕ) × (l.stopped k ≡ true)
  Explains (p, out_of_fuel) = Unit

  -- A round of `drain`, up to the test of the context, and the result of `Retry`.
  abbrev attempted :
      ℕ → ℕ → Draining fl run_id has_process → Draining fl run_id has_process × RetryResult
  attempted tries k q =
      let r =
        retry fl (l.random k)
          (attempt_output fl run_id has_process l k (next_batch run_id q.buffer)) (l.sleep k) tries
          0 q.backoff q in
      (record r.state { backoff = r.backoff }, r.result)

  abbrev settled : ℕ → Draining fl run_id has_process × RetryResult → Draining fl run_id has_process
  settled k (q', r) = settle fl run_id has_process (l.late_random k) r q'

  -- What is relied on: the n-th attempt of a round ends the round, if only because the context ends
  -- while it waits; a wait fails only when the context has ended; the server acknowledges at least the
  -- first chunk of a batch that it takes; and no chunks are added to the run meanwhile.
  pub record IsFair (n : ℕ) : Type 0 where
    pub ends :
        (k : ℕ) (batch : List Chunk)
        → Ends fl (l.random k) (attempt_output fl run_id has_process l k batch) (l.sleep k) n
    pub stops : (k i d : ℕ) (err : ClientError) → l.sleep k i d ≡ some err → l.stopped k ≡ true
    pub acks :
        (k i : ℕ) (batch : List Chunk) (response : OutputResponse)
        → l.append k i batch ≡ inr response
        → Covers batch response.last_output_seq
    pub drops : (k : ℕ) (b : Buffer) → pending run_id (l.meanwhile k b) ≤ pending run_id b
