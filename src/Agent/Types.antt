-- ===== src/Agent/Types.antt =====
-- The records of internal/agent, and of the packages that it speaks with: the lease and the
-- requests of internal/protocol/types.go, the result of internal/runner/runner.go.
use omj_agent.Base.{ℕ, String, Bool, Option, List, ℤ}
use omj_agent.Protocol.{RunStatus, FinishReason}
use omj_agent.Output.Buffer.{Buffer}
use omj_agent.Output.Chunker.{Chunker}
use omj_agent.State.{Store}

-- `scheduled_for` and the other fields that may be null are options.
pub record RunLease : Type 0 where
  pub run_id : String
  pub machine_id : String
  pub job_id : String
  pub job_name : String
  pub trigger : String
  pub scheduled_for : Option ℕ
  pub command : String
  pub run_as : Option String
  pub shell : Option String
  pub working_directory : Option String
  pub environment : List (String × String)
  pub timeout_seconds : ℤ
  pub max_output_bytes : ℤ
  pub lease_expires_at : ℕ

-- What the agent reads of `config.Config`.
pub record AgentConf : Type 0 where
  pub machine_id : String
  pub max_concurrent_runs : ℤ
  pub max_timeout_seconds : ℤ
  pub max_output_bytes : ℤ

-- Why no process was started: the two texts of `executionUser`, and an error of the runner.
pub data SpawnError : Type 0 where
  no_users_allowed : String → SpawnError
  not_allowed : String → List String → SpawnError
  runner_failed : String → SpawnError

-- The process is known by its pid and group.
pub record Process : Type 0 where
  pub pid : ℕ
  pub pgid : ℕ

-- `cancel_once`: the run's `sync.Once` has been used.
pub record Run : Type 0 where
  pub lease : RunLease
  pub timeout : ℤ
  pub max_output : ℤ
  pub started_at : ℕ
  pub start_accepted : Bool
  pub process : Option Process
  pub chunker : Chunker
  pub spawn_err : Option SpawnError
  pub spawn_reason : FinishReason
  pub cancelled_before_start : Bool
  pub cancel_once : Bool

-- `runner.Spec`
pub record Spec : Type 0 where
  pub run_id : String
  pub job_name : String
  pub machine_id : String
  pub command : String
  pub run_as : String
  pub shell : String
  pub working_dir : String
  pub env : List (String × String)
  pub timeout : ℤ
  pub max_output : ℤ

-- `runner.Result`, with the error's text.
pub record Result : Type 0 where
  pub exit_code : ℤ
  pub signal : Option ℕ
  pub started_at : ℕ
  pub finished_at : ℕ
  pub timed_out : Bool
  pub cancelled : Bool
  pub reason : String
  pub err : Option String

pub record FinishRequest : Type 0 where
  pub status : RunStatus
  pub exit_code : Option ℤ
  pub started_at : Option ℕ
  pub finished_at : ℕ
  pub last_output_seq : ℕ
  pub output_truncated : Bool
  pub reason : Option FinishReason

pub record StartRequest : Type 0 where
  pub effective_timeout_seconds : ℤ
  pub effective_max_output_bytes : ℤ

-- `Settings`, with durations in nanoseconds.
pub record Settings : Type 0 where
  pub heartbeat_interval : ℤ
  pub flush_interval : ℤ
  pub chunk_bytes : ℤ
  pub poll_wait : ℤ

-- What of `Agent` changes while it runs, and what of its options decides.
pub record Agent : Type 0 where
  pub conf : AgentConf
  pub run_as_allowed : List String
  pub store : Store
  pub buffer : Buffer
  pub registry : List Run
  pub rejected : List String
  pub settings : Settings

-- A call that the agent makes of the server or of the runner; a cancellation names the run and the
-- reason.
pub data Event : Type 0 where
  start_run : String → StartRequest → Event
  finish_run : String → FinishRequest → Event
  runner_start : Spec → Event
  process_cancel : String → String → Event
