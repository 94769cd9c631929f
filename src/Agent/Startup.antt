-- ===== src/Agent/Startup.antt =====
-- internal/agent/startup.go: the state file that the agent finds when it starts. The times at which
-- the rounds of `reconcile` run are a function of their number.
pub mod Lost
use omj_agent.Base.{
  ℕ, suc, String, Bool, true, false, Option, none, some, List, [], ◌∷◌, if◌then◌else◌, str_eq,
  is_empty_str, ◌||◌,
}
use omj_agent.Protocol.{run_status_lost, reason_agent_restarted, err_run_finished, err_not_leased}
use omj_agent.State.{Store, ActiveRun, Outcome, Faults, reset, set_machine_id, mark_finished}
use omj_agent.Client.Errors.{ClientError, is_conflict, is_not_found}
use omj_agent.Agent.Types.{FinishRequest}

unfoldable pub adopt : ℕ → Faults → String → Store → Store
adopt now io machine_id s =
    if str_eq s.contents.machine_id machine_id
    then s
    else if is_empty_str s.contents.machine_id
    then (set_machine_id now io machine_id s).0
    else (reset now io machine_id s).0

abbrev pub lost_outcome : ActiveRun → Outcome
lost_outcome r = record {
  status = run_status_lost;
  exit_code = none;
  started_at = some r.started_at;
  reason = some reason_agent_restarted;
}

-- The loop of `reconcile`, over the runs that were active when it began.
unfoldable pub reconcile_runs : (ℕ → ℕ) → Faults → ℕ → List ActiveRun → Store → Store
reconcile_runs clock io i [] s = s
reconcile_runs clock io i (r ∷ rs) s =
    reconcile_runs clock io (suc i) rs (mark_finished (clock i) io r.run_id (lost_outcome r) s).0

unfoldable pub reconcile : (ℕ → ℕ) → Faults → Store → Store
reconcile clock io s = reconcile_runs clock io 0 s.contents.active_runs s

-- The request of `reportLost`.
unfoldable pub lost_request : ℕ → ActiveRun → FinishRequest
lost_request now r = record {
  status = run_status_lost;
  exit_code = none;
  started_at = some r.started_at;
  finished_at = now;
  last_output_seq = 0;
  output_truncated = false;
  reason = some reason_agent_restarted;
}

-- What `reportLost` makes of the end of its retries: the error it returns, if any.
unfoldable pub report_lost : Option ClientError → Option ClientError
report_lost none = none
report_lost (some err) =
    if is_conflict err err_run_finished
    then none
    else if is_conflict err err_not_leased || is_not_found err
    then none
    else some err
