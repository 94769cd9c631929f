-- ===== src/Agent/Samples.antt =====
-- An agent of internal/agent, a lease and what the agent meets while it handles it.
use omj_agent.Base.{inr, true, false, none, some, List, [], ◌∷◌, pos, if◌then◌else◌, ◌==◌}
use omj_agent.Output.Chunker.{new_chunker}
use omj_agent.State.{Faults, missing, holds, empty_contents}
use omj_agent.Client.Errors.{fault, canceled, net_error}
use omj_agent.Client.Whole.{whole}
use omj_agent.Agent.Types.{RunLease, Agent, Run, Spec, StartRequest, Event, start_run, runner_start}
use omj_agent.Agent.Lease.{Outside}
use omj_agent.Agent.Polling.{default_settings}

abbrev pub lease : RunLease
lease = record {
  run_id = "r";
  machine_id = "m";
  job_id = "j";
  job_name = "backup";
  trigger = "schedule";
  scheduled_for = none;
  command = "true";
  run_as = some "bob";
  shell = none;
  working_directory = none;
  environment = [];
  timeout_seconds = pos 60;
  max_output_bytes = pos 500;
  lease_expires_at = 100;
}

abbrev pub agent : Agent
agent = record {
  conf = record {
    machine_id = "m";
    max_concurrent_runs = pos 2;
    max_timeout_seconds = pos 30;
    max_output_bytes = pos 1000;
  };
  run_as_allowed = "bob" ∷ [];
  store = record {
    contents = record empty_contents { machine_id = "m" };
    file = missing;
    aside = [];
  };
  buffer = record { global_cap = 100; batch_bytes = 10; batch_chunks = 4; runs = []; size = 0 };
  registry = [];
  rejected = [];
  settings = default_settings;
}

abbrev pub working : Faults
working = record { renames = true; encodes = true; makes_dir = true; writes = true }

-- The first start request meets a network error, the second one is confirmed; a second wait is cut
-- short.
abbrev pub outside : Outside whole
outside = record {
  random = λ i. 0;
  confirm = λ i. if i == 0 then some (fault net_error) else none;
  sleep = λ i d. if i == 1 then some (fault canceled) else none;
  launch_process = λ spec. inr (record { pid = 7; pgid = 7 });
  error_text = λ err. [];
  visit = λ i rs. rs;
  faults = working;
  verified_at = 90;
  spawned_at = 95;
  saved_at = 95;
  written_at = λ n. 95;
}

abbrev pub request : StartRequest
request = record { effective_timeout_seconds = pos 30; effective_max_output_bytes = pos 500 }

abbrev pub spec : Spec
spec = record {
  run_id = "r";
  job_name = "backup";
  machine_id = "m";
  command = "true";
  run_as = "bob";
  shell = "";
  working_dir = "";
  env = [];
  timeout = pos 30000000000;
  max_output = pos 500;
}

abbrev pub run : Run
run = record {
  lease = lease;
  timeout = pos 30000000000;
  max_output = pos 500;
  started_at = 95;
  start_accepted = true;
  process = some (record { pid = 7; pgid = 7 });
  chunker = new_chunker "r" (pos 65536) (pos 500);
  spawn_err = none;
  spawn_reason = "";
  cancelled_before_start = false;
  cancel_once = false;
}

abbrev pub running : Agent
running = record agent {
  registry = run ∷ [];
  store = record {
    contents = record {
      machine_id = "m";
      active_runs = record { run_id = "r"; pid = 7; pgid = 7; started_at = 95 } ∷ [];
      recent_runs = [];
    };
    file = holds (record {
      machine_id = "m";
      active_runs = record { run_id = "r"; pid = 7; pgid = 7; started_at = 95 } ∷ [];
      recent_runs = [];
    });
    aside = [];
  };
}

abbrev pub events : List Event
events = start_run "r" request ∷ start_run "r" request ∷ runner_start spec ∷ []
