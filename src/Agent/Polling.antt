-- ===== src/Agent/Polling.antt =====
-- The poll loop's own decisions in internal/agent/agent.go: what it asks for, how long it waits,
-- which settings it takes over, which processes it cancels.
pub mod Loop
pub mod Requests
pub mod Cancelling
use omj_agent.Base.{
  ℕ, ◌+◌, ◌*◌, ◌-◌, ◌%◌, suc, String, Bool, true, false, not, ◌||◌, ◌&&◌, Option, none, some, List,
  [], ◌∷◌, ◌++◌, min, if◌then◌else◌, ℤ, pos, negsuc, to_ℕ, is_positive, min_ℤ, wrap_i64, is_some,
  ltb,
}
use omj_agent.Client.Errors.{
  ClientError, as_api_error, is_unauthorized, is_unsupported_protocol, is_retryable, retry_after_of,
}
use omj_agent.Client.Backoff.{Floats, Backoff, next, auth_retry_interval}
use omj_agent.Agent.Types.{Agent, Run, Settings, Event, process_cancel}
use omj_agent.Agent.Registry.{get, count, active, is_run_of}
use omj_agent.Agent.Terms.{seconds, whole_seconds}

abbrev pub max_slots : ℕ
max_slots = 16

-- 25 * time.Second
abbrev pub max_poll_wait : ℕ
max_poll_wait = 25000000000

abbrev pub cancel_requested : String
cancel_requested = "cancel_requested"

abbrev pub agent_stopped : String
agent_stopped = "agent_stopped"

-- `DefaultSettings`: 15 s, output.DefaultFlushInterval, output.DefaultChunkBytes, MaxPollWait.
abbrev pub default_settings : Settings
default_settings = record {
  heartbeat_interval = pos 15000000000;
  flush_interval = pos 500000000;
  chunk_bytes = pos 65536;
  poll_wait = pos max_poll_wait;
}

-- `protocol.WorkRequest`, less the machine's metadata.
pub record WorkRequest : Type 0 where
  pub wait_seconds : ℤ
  pub slots : ℕ
  pub active_runs : List String

-- `max(free, 0)` is the subtraction that stops at 0.
unfoldable pub work_request : Agent → WorkRequest
work_request a = record {
  wait_seconds = whole_seconds a.settings.poll_wait;
  slots = min (to_ℕ a.conf.max_concurrent_runs - count a.registry) max_slots;
  active_runs = active a.registry;
}

-- `protocol.AgentConfig`
pub record AgentConfig : Type 0 where
  pub poll_wait_seconds : ℤ
  pub heartbeat_interval_seconds : ℤ
  pub output_flush_interval_ms : ℤ
  pub output_chunk_bytes : ℤ

-- `time.Duration(n) * time.Millisecond`, for a positive number.
abbrev pub milliseconds : ℤ → ℤ
milliseconds n = wrap_i64 (to_ℕ n * 1000000)

unfoldable pub apply : AgentConfig → Settings → Settings
apply received s = record {
  heartbeat_interval =
      if is_positive received.heartbeat_interval_seconds
      then seconds received.heartbeat_interval_seconds
      else s.heartbeat_interval;
  flush_interval =
      if is_positive received.output_flush_interval_ms
      then milliseconds received.output_flush_interval_ms
      else s.flush_interval;
  chunk_bytes =
      if is_positive received.output_chunk_bytes
      then received.output_chunk_bytes
      else s.chunk_bytes;
  poll_wait =
      if is_positive received.poll_wait_seconds
      then min_ℤ (seconds received.poll_wait_seconds) (pos max_poll_wait)
      else s.poll_wait;
}

-- `delayAfter`: the wait, and the backoff after it.
module _ (fl : Floats) (random : fl.F) where
  unfoldable pub delay_after : ClientError → Backoff fl → ℕ × Backoff fl
  delay_after err b =
      let (delay, b') = next fl random b in
      if is_unauthorized err
      then (auth_retry_interval, b)
      else if is_unsupported_protocol err && is_some (as_api_error err)
      then (auth_retry_interval, b)
      else if is_retryable err
      then (if ltb delay (retry_after_of err) then retry_after_of err else delay, b')
      else (delay, b')

-- The run of that id, changed in place.
abbrev pub update : (Run → Run) → String → List Run → List Run
update f run_id [] = []
update f run_id (r ∷ rs) =
    let rest = update f run_id rs in if is_run_of run_id r then f r ∷ rs else r ∷ rest

abbrev pub use_once : Run → Run
use_once r = record r { cancel_once = true }

-- One round of `cancel`.
unfoldable pub cancel_one : String → List Run → List Run × List Event
cancel_one run_id runs = elim (get run_id runs) [
  | none ↦ (runs, [])
  | some run ↦
      if not (is_some run.process) || run.cancel_once
      then (runs, [])
      else (update use_once run_id runs, process_cancel run_id cancel_requested ∷ [])
]

unfoldable pub cancel : List String → List Run → List Run × List Event
cancel [] runs = (runs, [])
cancel (run_id ∷ ids) runs =
    let (runs', es) = cancel_one run_id runs in
    let (runs'', es') = cancel ids runs' in (runs'', es ++ es')

-- `cancelAll` of internal/agent/signals.go
unfoldable pub cancel_all : List Run → List Event
cancel_all [] = []
cancel_all (r ∷ rs) =
    let rest = cancel_all rs in
    if is_some r.process then process_cancel r.lease.run_id agent_stopped ∷ rest else rest
