-- ===== src/Agent/Reporter/Drain.antt =====
-- The end of a run's delivery: `drain` and `finish` of internal/agent/reporter.go. Both call `Retry`
-- with the report's own backoff, which is taken out of the report for that time and put back.
use omj_agent.Base.{
  ℕ, zero, suc, String, Bool, true, false, ◌||◌, Option, none, some, List, ◌∷◌, ◌==◌, ◌⊎◌, inl, inr,
  if◌then◌else◌, length,
}
use omj_agent.Protocol.{err_run_finished, err_not_leased}
use omj_agent.Output.Chunk.{Chunk}
use omj_agent.Output.Buffer.{Buffer, next_batch}
use omj_agent.Client.Errors.{ClientError, is_conflict, is_not_found, is_retryable}
use omj_agent.Client.Backoff.{Floats}
use omj_agent.Client.Retry.{RetryResult, done, running, failed, retry}
use omj_agent.Agent.Reporter.{OutputResponse, sent, Report, heartbeat, accept, output_failed}

pub data Ending : Type 0 where
  delivered interrupted out_of_fuel : Ending

-- What `finish` says in the log.
pub data Verdict : Type 0 where
  reported already_reported unknown_run undelivered : Verdict

unfoldable pub verdict_of : RetryResult → Option Verdict
verdict_of running = none
verdict_of done = some reported
verdict_of (failed err) = some (
    if is_conflict err err_run_finished
    then already_reported
    else if is_conflict err err_not_leased || is_not_found err
    then unknown_run
    else undelivered)

abbrev pub is_running : RetryResult → Bool
is_running running = true
is_running done = false
is_running (failed err) = false

module _ (fl : Floats) (run_id : String) (has_process : Bool) where
  -- What the server and the context answer. A round of `drain` has its number, and so has an attempt
  -- in it; `stopped` is whether the context has ended when the round's attempts are over. Before a
  -- round the other runs may have the buffer drop chunks, which `meanwhile` stands for.
  pub record Link : Type 0 where
    pub beat : ℕ → ℕ → ClientError ⊎ Bool
    pub append : ℕ → ℕ → List Chunk → ClientError ⊎ OutputResponse
    pub random : ℕ → ℕ → fl.F
    pub late_random : ℕ → fl.F
    pub sleep : ℕ → ℕ → ℕ → Option ClientError
    pub stopped : ℕ → Bool
    pub meanwhile : ℕ → Buffer → Buffer

  abbrev pub Draining : Type 0
  Draining = Report fl run_id has_process

  -- The function that `drain` gives to `Retry`, from the request on.
  unfoldable pub offer :
      List Chunk → ClientError ⊎ OutputResponse → Draining → Draining × Option ClientError
  offer batch (inl err) p =
      let asked = record p { log = sent batch (inl err) ∷ p.log } in
      (if is_retryable err then record asked { disconnected = true } else asked, some err)
  offer batch (inr response) p = (
    accept fl run_id has_process response
        (record p { log = sent batch (inr response.truncated) ∷ p.log }),
    none,
  )

  -- A heartbeat that failed is the attempt's error.
  unfoldable pub after_beat :
      List Chunk
      → ClientError ⊎ OutputResponse
      → Draining × Option ClientError
      → Draining × Option ClientError
  after_beat batch answer (p, some err) = (p, some err)
  after_beat batch answer (p, none) = offer batch answer p

  unfoldable pub attempt_output :
      Link → ℕ → List Chunk → ℕ → Draining → Draining × Option ClientError
  attempt_output l k batch i p =
      let answer = l.append k i batch in
      if p.disconnected
      then after_beat batch answer (heartbeat fl run_id has_process (l.beat k i) p)
      else offer batch answer p

  -- What `drain` does with the error of `Retry`.
  unfoldable pub settle : fl.F → RetryResult → Draining → Draining
  settle random (failed err) p =
      if p.output_done then p else output_failed fl run_id has_process random err p
  settle random done p = p
  settle random running p = p

  -- The loop of `drain`, with fuel for its rounds and for the attempts of a round.
  unfoldable pub drain : Link → ℕ → ℕ → ℕ → Draining → Draining × Ending
  drain l tries zero k p = (p, out_of_fuel)
  drain l tries (suc fuel) k p =
      let q = record p { buffer = l.meanwhile k p.buffer } in
      let batch = next_batch run_id q.buffer in
      let r = retry fl (l.random k) (attempt_output l k batch) (l.sleep k) tries 0 q.backoff q in
      let q' = record r.state { backoff = r.backoff } in
      let rest = drain l tries fuel (suc k) (settle (l.late_random k) r.result q') in
      if p.output_done
      then (p, delivered)
      else if length batch == 0
      then (q, delivered)
      else if is_running r.result
      then (q', out_of_fuel)
      else if l.stopped k
      then (q', interrupted)
      else rest

  -- `finish`, on the answers of `FinishRun`; none if the attempts run out.
  unfoldable pub finish :
      (ℕ → fl.F)
      → (ℕ → Option ClientError)
      → (ℕ → ℕ → Option ClientError)
      → ℕ
      → Draining
      → Option Verdict
  finish random answer sleep tries p =
      verdict_of (retry fl random (λ i u. (u, answer i)) sleep tries 0 p.backoff tt).result
