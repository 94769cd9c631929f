-- ===== src/Agent/Lease.antt =====
-- internal/agent/lease.go: what the agent does with a lease that the server hands out. The calls
-- that it makes of the server and the runner are events, in order; what they answer, the clock and
-- the file system's answers are fields of `Outside`.
pub mod Verified
pub mod Cases
pub mod Order
pub mod Orderly
pub mod Answers
pub mod Spawns
use omj_agent.Base.{
  ℕ, suc, ◌+◌, ◌*◌, ◌-◌, ◌/◌, ◌%◌, String, Bool, true, false, not, ◌||◌, Option, none, some, List,
  [], ◌∷◌, ◌++◌, ltb, ◌==◌, if◌then◌else◌, length, ℤ, pos, negsuc, to_ℕ, is_positive, min_ℤ, ltb_ℤ,
  wrap_i64, contains_func, str_eq, is_empty_str, ◌⊎◌, inl, inr,
}
use omj_agent.Protocol.{FinishReason, reason_spawn_failed, reason_run_as_not_permitted}
use omj_agent.Output.Chunk.{Chunk, stderr}
use omj_agent.Output.Buffer.{Buffer, Runs}
use omj_agent.Output.Buffer.{add as buffer_add}
use omj_agent.Output.Chunker.{Chunker, new_chunker, write, close}
use omj_agent.State.{Store, Faults, mark_active, is_active, recent_outcome}
use omj_agent.Client.Errors.{ClientError}
use omj_agent.Client.Backoff.{Floats, Backoff}
use omj_agent.Client.Retry.{RetryResult, done, running, failed, Retried, retry}
use omj_agent.Agent.Types.{
  RunLease, AgentConf, Agent, Run, Process, Spec, SpawnError, no_users_allowed, not_allowed,
  StartRequest, Event, start_run, finish_run, runner_start, Settings,
}
use omj_agent.Agent.Registry.{add, get, count, first}
use omj_agent.Agent.Outcomes.{resend_request}
use omj_agent.Agent.Terms.{
  clock_tolerance, seconds, whole_seconds, deref, VerifiedLease, LeaseError, verify, execution_user,
  start_request,
}

-- What the agent does not decide: `confirm i` answers the i-th attempt of the start request,
-- `sleep` fails once the lease has expired or the agent stops, `error_text` is the text of an error
-- as bytes, `visit` the order in which the buffer's map is walked.
pub record Outside (fl : Floats) : Type 0 where
  pub random : ℕ → fl.F
  pub confirm : ℕ → Option ClientError
  pub sleep : ℕ → ℕ → Option ClientError
  pub launch_process : Spec → SpawnError ⊎ Process
  pub error_text : SpawnError → List ℕ
  pub visit : ℕ → Runs → Runs
  pub faults : Faults
  pub verified_at : ℕ
  pub spawned_at : ℕ
  pub saved_at : ℕ
  pub written_at : ℕ → ℕ

unfoldable pub warn : String → Agent → Agent
warn run_id a = record a { rejected = (first run_id a.rejected).1 }

unfoldable pub launch : Run → Agent → Agent
launch run a = record a { registry = add run a.registry }

unfoldable pub acknowledge : Run → List Event
acknowledge run =
    if run.start_accepted
    then start_run run.lease.run_id (start_request run.timeout run.max_output) ∷ []
    else []

abbrev pub chunker_for : Settings → VerifiedLease → Chunker
chunker_for settings v = new_chunker v.lease.run_id settings.chunk_bytes v.max_output

-- The run of `spawn`, before its process.
abbrev pub accepted_run : ℕ → Settings → VerifiedLease → Run
accepted_run now settings v = record {
  lease = v.lease;
  timeout = v.timeout;
  max_output = v.max_output;
  started_at = now;
  start_accepted = true;
  process = none;
  chunker = chunker_for settings v;
  spawn_err = none;
  spawn_reason = "";
  cancelled_before_start = false;
  cancel_once = false;
}

-- The run that the server cancelled before it was started. Its start time is not read.
abbrev pub cancelled_run : Settings → VerifiedLease → Run
cancelled_run settings v = record (accepted_run 0 settings v) {
  start_accepted = false;
  cancelled_before_start = true;
}

abbrev pub spec_of : AgentConf → VerifiedLease → String → Spec
spec_of conf v user = record {
  run_id = v.lease.run_id;
  job_name = v.lease.job_name;
  machine_id = conf.machine_id;
  command = v.lease.command;
  run_as = user;
  shell = deref v.lease.shell;
  working_dir = deref v.lease.working_directory;
  env = v.lease.environment;
  timeout = v.timeout;
  max_output = v.max_output;
}

abbrev pub receive : (ℕ → Runs → Runs) → List Chunk → Buffer → Buffer
receive visit [] b = b
receive visit (c ∷ cs) b = receive visit cs (buffer_add visit c b)

module _ (fl : Floats) (w : Outside fl) where
  -- `notStarted`: the error's text is the output of the run.
  unfoldable pub not_started : Run → FinishReason → SpawnError → Agent → Run × Agent
  not_started run reason err a =
      let (c₁, out₁) = write w.written_at stderr (w.error_text err ++ 10 ∷ []) run.chunker in
      let (c₂, out₂) = close c₁ in
      (
        record run { spawn_err = some err; spawn_reason = reason; chunker = c₂ },
        record a { buffer = receive w.visit (out₁ ++ out₂) a.buffer },
      )

  -- `Runner.Start` has answered.
  unfoldable pub spawned : Run → SpawnError ⊎ Process → Agent → Run × Agent
  spawned run (inl err) a = not_started run reason_spawn_failed err a
  spawned run (inr process) a = (
    record run { process = some process },
    record a {
      store =
          (mark_active w.saved_at w.faults
            (record {
              run_id = run.lease.run_id;
              pid = process.pid;
              pgid = process.pgid;
              started_at = run.started_at;
            })
            a.store).0;
    },
  )

  unfoldable pub spawn : VerifiedLease → Agent → (Run × Agent) × List Event
  spawn v a =
      let run = accepted_run w.spawned_at a.settings v in
      elim (execution_user a.run_as_allowed v.lease) [
        | inl err ↦ (not_started run reason_run_as_not_permitted err a, [])
        | inr user ↦
            let spec = spec_of a.conf v user in
            (spawned run (w.launch_process spec) a, runner_start spec ∷ [])
      ]

  -- The backoff of `start`, all of whose settings are defaults.
  abbrev pub start_backoff : Backoff fl
  start_backoff = record {
    minimum = pos 0;
    maximum = pos 0;
    factor = fl.of_ℕ 0;
    jitter = fl.of_ℕ 0;
    attempt = 0;
  }

  -- One request of `start`.
  abbrev pub attempt : VerifiedLease → ℕ → List Event → List Event × Option ClientError
  attempt v i es =
      (es ++ start_run v.lease.run_id (start_request v.timeout v.max_output) ∷ [], w.confirm i)

  -- `start`: whether the process may be spawned, or `none` where the fuel is out; and the requests
  -- that it made.
  unfoldable pub start : ℕ → VerifiedLease → Option Bool × List Event
  start fuel v =
      let r = retry fl w.random (attempt v) w.sleep fuel 0 start_backoff [] in
      (elim r.result [ done ↦ some true | failed e ↦ some false | running ↦ none ], r.state)

  -- `handleLease` from the request to start.
  unfoldable pub confirmed : ℕ → VerifiedLease → Agent → Option (Agent × List Event)
  confirmed fuel v a =
      let (answer, es) = start fuel v in
      elim answer [
        | none ↦ none
        | some false ↦ some (a, es)
        | some true ↦ let ((run, a'), es') = spawn v a in some (launch run a', es ++ es')
      ]

  -- `handleLease` for a lease that passes `verify`.
  unfoldable pub handle_verified : ℕ → VerifiedLease → Bool → Agent → Option (Agent × List Event)
  handle_verified fuel v cancelled a =
      if cancelled
      then some (launch (cancelled_run a.settings v) a, [])
      else if not (ltb_ℤ (pos (count a.registry)) a.conf.max_concurrent_runs)
      then some (warn v.lease.run_id a, [])
      else confirmed fuel v a

  -- `handleLease`; `none` where the requests to start have used up the fuel.
  unfoldable pub handle_lease : ℕ → RunLease → Bool → Agent → Option (Agent × List Event)
  handle_lease fuel lease cancelled a = elim (get lease.run_id a.registry) [
    | some run ↦ some (a, acknowledge run)
    | none ↦ elim (recent_outcome lease.run_id a.store) [
      | some outcome ↦ some (a, finish_run lease.run_id (resend_request outcome) ∷ [])
      | none ↦ elim (verify w.verified_at a lease) [
        | inl err ↦ some (warn lease.run_id a, [])
        | inr v ↦ handle_verified fuel v cancelled a
      ]
    ]
  ]
