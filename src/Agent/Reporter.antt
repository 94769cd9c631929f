-- ===== src/Agent/Reporter.antt =====
-- The delivery of one run's output while its process runs: `supervise` of
-- internal/agent/reporter.go and what it calls. Each of its wake-ups is a step; what the server
-- answers in a step is the step's argument. The calls that were made are kept in a log, the last
-- one first.
pub mod Flags
pub mod Drain
pub mod Drained
pub mod Delivered
pub mod Protocol
use omj_agent.Base.{
  ℕ, suc, String, Bool, true, false, not, ◌||◌, ◌&&◌, Option, none, some, List, [], ◌∷◌, ltb, ◌==◌,
  if◌then◌else◌, length, ◌⊎◌, inl, inr,
}
use omj_agent.Protocol.{err_run_not_running}
use omj_agent.Output.Chunk.{Chunk}
use omj_agent.Output.Buffer.{Buffer, next_batch, ack_up_to}
use omj_agent.Client.Errors.{ClientError, is_conflict, is_not_found, is_retryable, retry_after_of}
use omj_agent.Client.Backoff.{Floats, Backoff, next, reset}

pub record OutputResponse : Type 0 where
  pub last_output_seq : ℕ
  pub truncated : Bool
  pub cancel_requested : Bool

-- A heartbeat, or a batch of output with the answer: an error, or whether the server truncated.
pub data Call : Type 0 where
  beat : Option ClientError → Call
  sent : List Chunk → ClientError ⊎ Bool → Call

-- The case that the server will take nothing more of this run.
unfoldable pub is_refusal : ClientError → Bool
is_refusal err = is_conflict err err_run_not_running || is_not_found err

module _ (fl : Floats) (run_id : String) (has_process : Bool) where
  -- `delays` are the sleeps that `retryLater` started, `cancels` the calls of `Process.Cancel`.
  pub record Report : Type 0 where
    pub waiting : Bool
    pub disconnected : Bool
    pub output_done : Bool
    pub heartbeats : Bool
    pub server_truncated : Bool
    pub backoff : Backoff fl
    pub buffer : Buffer
    pub delays : List ℕ
    pub cancels : ℕ
    pub log : List Call

  -- What the server answers in one step, if it is asked, and the draw for a wait; a heartbeat's
  -- answer says whether the run is to be cancelled.
  pub record Answers : Type 0 where
    pub heartbeat : ClientError ⊎ Bool
    pub append : ClientError ⊎ OutputResponse
    pub random : fl.F

  unfoldable pub cancel_process : Bool → Report → Report
  cancel_process wanted p =
      if wanted && has_process then record p { cancels = suc p.cancels } else p

  unfoldable pub retry_later : fl.F → ClientError → Report → Report
  retry_later random err p =
      if p.waiting || not (is_retryable err)
      then p
      else let (wait, backoff) = next fl random p.backoff in
        record p {
          waiting = true;
          backoff = backoff;
          delays = (if ltb wait (retry_after_of err) then retry_after_of err else wait) ∷ p.delays;
        }

  -- `heartbeat`, with the error that it returns.
  unfoldable pub heartbeat : ClientError ⊎ Bool → Report → Report × Option ClientError
  heartbeat (inr wanted) p =
      (cancel_process wanted (record p { disconnected = false; log = beat none ∷ p.log }), none)
  heartbeat (inl err) p =
      let asked = record p { log = beat (some err) ∷ p.log } in
      (
        if is_refusal err
            then record asked { heartbeats = false; output_done = true }
            else if is_retryable err
            then record asked { disconnected = true }
            else asked,
        some err,
      )

  unfoldable pub accept : OutputResponse → Report → Report
  accept response p =
      let acked = record p {
        backoff = reset fl p.backoff;
        buffer = ack_up_to run_id response.last_output_seq p.buffer;
      } in
      cancel_process response.cancel_requested (
        if response.truncated
        then record acked { server_truncated = true; output_done = true }
        else acked)

  unfoldable pub output_failed : fl.F → ClientError → Report → Report
  output_failed random err p =
      if is_refusal err
      then record p { output_done = true }
      else if is_retryable err
      then retry_later random err (record p { disconnected = true })
      else record p { output_done = true }

  -- `sendOutput` from the request on.
  unfoldable pub append_output : List Chunk → Answers → Report → Report
  append_output batch answers p = elim answers.append [
    | inl err ↦ output_failed answers.random err (record p { log = sent batch (inl err) ∷ p.log })
    | inr response ↦
        accept response (record p { log = sent batch (inr response.truncated) ∷ p.log })
  ]

  -- A run that the server marked lost takes output only after a heartbeat.
  unfoldable pub reconnect : List Chunk → Answers → Report → Report
  reconnect batch answers p =
      let (p', failed) = heartbeat answers.heartbeat p in
      elim failed [
        | some err ↦ retry_later answers.random err p'
        | none ↦ append_output batch answers p'
      ]

  unfoldable pub send_output : Answers → Report → Report
  send_output answers p =
      let batch = next_batch run_id p.buffer in
      if p.output_done || p.waiting
      then p
      else if length batch == 0
      then p
      else if p.disconnected
      then reconnect batch answers p
      else append_output batch answers p

  unfoldable pub send_heartbeat : Answers → Report → Report
  send_heartbeat answers p = if p.heartbeats then (heartbeat answers.heartbeat p).0 else p

  -- The cases of `supervise` before the process has exited. Between two of them the run's chunker
  -- may add to the buffer, which `other` stands for.
  pub data Step : Type 0 where
    flush : Answers → Step
    retry_ready : Answers → Step
    heartbeat_tick : Answers → Step
    other : Buffer → Step

  unfoldable pub step : Report → Step → Report
  step p (flush answers) = send_output answers p
  step p (retry_ready answers) = send_output answers (record p { waiting = false })
  step p (heartbeat_tick answers) = send_heartbeat answers p
  step p (other buffer) = record p { buffer = buffer }

  unfoldable pub steps : Report → List Step → Report
  steps p [] = p
  steps p (s ∷ ss) = steps (step p s) ss

  -- The report that `Report` makes of a run.
  unfoldable pub new_report : Backoff fl → Buffer → Report
  new_report backoff buffer = record {
    waiting = false;
    disconnected = false;
    output_done = false;
    heartbeats = has_process;
    server_truncated = false;
    backoff = backoff;
    buffer = buffer;
    delays = [];
    cancels = 0;
    log = [];
  }
