-- ===== src/Agent/Examples.antt =====
-- The theorems about internal/agent at concrete inputs.
use mathlib.Core.List.Perm
use omj_agent.Base.{◌++◌, ◌≤◌, ◌≡◌, ◌≢◌, refl, true, false, none, some, [], ◌∷◌, arith, pos, All}
use omj_agent.Protocol.{reason_agent_stopped, run_status_success}
use omj_agent.Output.Chunker.{new_chunker}
use omj_agent.State.{is_active, recent_outcome, mark_active, save, prune, prune_runs}
use omj_agent.Client.Errors.{is_retryable}
use omj_agent.Client.Whole.{whole}
use omj_agent.Client.Backoff.{next}
use omj_agent.Agent.Types.{Result, FinishRequest, finish_run}
use omj_agent.Agent.Registry.{get, count, add}
use omj_agent.Agent.Terms.{verify, execution_user, start_request}
use omj_agent.Agent.Lease.{handle_lease, handle_verified, confirmed, start, spawn, spawned, launch}
use omj_agent.Client.Retry.{retry}
use omj_agent.Agent.Lease.Spawns.{IsJustified, handle_lease-IsJustified}
use omj_agent.Agent.Lease.Order.{IsOrderly}
use omj_agent.Agent.Lease.Orderly.{handle_lease-IsOrderly}
use omj_agent.Agent.Lease.Answers.{handle_lease-ne-none}
use omj_agent.Agent.Delivery.{release, handle_lease-release}
use omj_agent.Output.Buffer.Largest.{IsVisit}
use omj_agent.Agent.Traces.{spawns, IsRemembered, idle, leases, releases}
use omj_agent.Agent.Traces.Once.{Trace-once}
use omj_agent.Agent.Samples.{lease, agent, working, outside, running, events}

pub handled : handle_lease whole outside 2 lease false agent ≡ some (running, events)
unfolding handle_lease handle_verified confirmed start spawn spawned verify launch execution_user
    start_request get count add is_active recent_outcome mark_active save prune prune_runs retry
    next is_retryable new_chunker
handled = refl

pub agent-IsOrderly : IsOrderly agent
agent-IsOrderly = record {
  single = tt;
  slots = omega arith;
  launched = tt;
  buffer = record { distinct = tt; counted = tt; sized = refl; within = omega arith };
  store = omega arith;
}

pub in_order-IsVisit : IsVisit (λ i rs. rs)
in_order-IsVisit i rs = Perm.refl rs

handle_lease-IsJustified_example : All (IsJustified whole outside lease false agent) events
handle_lease-IsJustified_example =
    handle_lease-IsJustified whole outside lease false agent 2 running events handled

handle_lease-IsOrderly_example : IsOrderly running
handle_lease-IsOrderly_example =
    handle_lease-IsOrderly whole outside in_order-IsVisit 2 lease false agent running events
      agent-IsOrderly handled

handle_lease-ne-none_example : handle_lease whole outside 2 lease false agent ≢ none
handle_lease-ne-none_example =
    handle_lease-ne-none whole outside 2 1 (λ d e. cc) (omega arith) lease false agent

abbrev done_request : FinishRequest
done_request = record {
  status = run_status_success;
  exit_code = some (pos 0);
  started_at = some 95;
  finished_at = 99;
  last_output_seq = 3;
  output_truncated = true;
  reason = none;
}

running-IsOrderly : IsOrderly running
running-IsOrderly = record {
  single = (tt, tt);
  slots = omega arith;
  launched = ((refl, λ e. cc), tt);
  buffer = record { distinct = tt; counted = tt; sized = refl; within = omega arith };
  store = omega arith;
}

handle_lease-release_example :
    handle_lease whole outside 0 lease true (release 100 working "r" done_request running)
    ≡ some (
      release 100 working "r" done_request running,
      finish_run "r" (record done_request {
        finished_at = 100;
        last_output_seq = 0;
        output_truncated = false;
      })
          ∷ [],
    )
handle_lease-release_example =
    handle_lease-release whole outside 0 lease true 100 working done_request running
      running-IsOrderly

abbrev stopped : Result
stopped = record {
  exit_code = pos 143;
  signal = some 15;
  started_at = 95;
  finished_at = 99;
  timed_out = false;
  cancelled = true;
  reason = reason_agent_stopped;
  err = none;
}

abbrev resent : FinishRequest
resent = record done_request { finished_at = 100; last_output_seq = 0; output_truncated = false }

-- The run is started, it ends, and its lease is repeated.
Trace-once_example : spawns "r" (events ++ ((finish_run "r" resent ∷ []) ++ [])) ≤ 1
unfolding IsRemembered recent_outcome
Trace-once_example =
    let over = release 100 working "r" done_request running in
    Trace-once whole "r" agent over (events ++ ((finish_run "r" resent ∷ []) ++ []))
      (leases outside 2 lease false agent running over events ((finish_run "r" resent ∷ []) ++ [])
        in_order-IsVisit handled
        (releases 100 working "r" done_request running over ((finish_run "r" resent ∷ []) ++ []) (
          leases outside 0 lease true over over over (finish_run "r" resent ∷ []) []
            in_order-IsVisit
            (handle_lease-release whole outside 0 lease true 100 working done_request running
              running-IsOrderly)
            (idle over))))
      ((λ h. h), ((λ h. cc), ((λ h. h), tt))) agent-IsOrderly
