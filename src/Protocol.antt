-- ===== src/Protocol.antt =====
-- internal/protocol/enums.go: the string constants of the agent protocol. A Go string type is
-- `String`, since a value from the server may be any text.
pub mod Statuses
use omj_agent.Base.{String, Bool, ◌||◌, str_eq}

abbrev pub RunStatus : Type 0
RunStatus = String

abbrev pub FinishReason : Type 0
FinishReason = String

abbrev pub ErrorCode : Type 0
ErrorCode = String

abbrev pub run_status_queued : RunStatus
run_status_queued = "queued"

abbrev pub run_status_dispatched : RunStatus
run_status_dispatched = "dispatched"

abbrev pub run_status_running : RunStatus
run_status_running = "running"

abbrev pub run_status_success : RunStatus
run_status_success = "success"

abbrev pub run_status_failed : RunStatus
run_status_failed = "failed"

abbrev pub run_status_timed_out : RunStatus
run_status_timed_out = "timed_out"

abbrev pub run_status_cancelled : RunStatus
run_status_cancelled = "cancelled"

abbrev pub run_status_lost : RunStatus
run_status_lost = "lost"

abbrev pub run_status_missed : RunStatus
run_status_missed = "missed"

-- `Valid`
unfoldable pub is_valid_status : RunStatus → Bool
is_valid_status s =
    str_eq s run_status_queued
    || str_eq s run_status_dispatched
    || str_eq s run_status_running
    || str_eq s run_status_success
    || str_eq s run_status_failed
    || str_eq s run_status_timed_out
    || str_eq s run_status_cancelled
    || str_eq s run_status_lost
    || str_eq s run_status_missed

-- `Terminal`
unfoldable pub is_terminal : RunStatus → Bool
is_terminal s =
    str_eq s run_status_success
    || str_eq s run_status_failed
    || str_eq s run_status_timed_out
    || str_eq s run_status_cancelled
    || str_eq s run_status_lost
    || str_eq s run_status_missed

-- `Reportable`: whether finish accepts the status.
unfoldable pub is_reportable : RunStatus → Bool
is_reportable s =
    str_eq s run_status_success
    || str_eq s run_status_failed
    || str_eq s run_status_timed_out
    || str_eq s run_status_cancelled
    || str_eq s run_status_lost

abbrev pub reason_spawn_failed : FinishReason
reason_spawn_failed = "spawn_failed"

abbrev pub reason_agent_stopped : FinishReason
reason_agent_stopped = "agent_stopped"

abbrev pub reason_agent_restarted : FinishReason
reason_agent_restarted = "agent_restarted"

abbrev pub reason_run_as_not_permitted : FinishReason
reason_run_as_not_permitted = "run_as_not_permitted"

unfoldable pub is_valid_reason : FinishReason → Bool
is_valid_reason r =
    str_eq r reason_spawn_failed
    || str_eq r reason_agent_stopped
    || str_eq r reason_agent_restarted
    || str_eq r reason_run_as_not_permitted

abbrev pub err_run_finished : ErrorCode
err_run_finished = "run_finished"

abbrev pub err_lease_expired : ErrorCode
err_lease_expired = "lease_expired"

abbrev pub err_not_leased : ErrorCode
err_not_leased = "not_leased"

abbrev pub err_run_cancelled : ErrorCode
err_run_cancelled = "run_cancelled"

abbrev pub err_run_not_running : ErrorCode
err_run_not_running = "run_not_running"
