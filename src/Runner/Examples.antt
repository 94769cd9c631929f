-- ===== src/Runner/Examples.antt =====
-- The theorems about internal/runner at concrete inputs.
use omj_agent.Base.{ℕ, ◌≡◌, refl, String, Bool, true, false, none, some, pos}
use omj_agent.Agent.Types.{Result}
use omj_agent.Runner.Process.{
  Process, start, cancel, time_out, wait, exit_error, signaled, Reaches, cancels, times_out, ends,
  stay, after, terminate, exit_status,
}
use omj_agent.Runner.Process.Termination.{HasSameCause, Reaches-settled, Reaches-result}
use omj_agent.Runner.Limits.{Runner}

-- The agent stops, the timer fires all the same, and the process dies of the signal.
abbrev stopping : Process
stopping = record {
  started_at = 5;
  timer = false;
  exited = false;
  terminating = true;
  timed_out = false;
  cancelled = true;
  reason = "agent_stopped";
  terminate_err = none;
  groups = 1;
  result = none;
}

abbrev result : Result
result = record {
  exit_code = pos 143;
  signal = some 15;
  started_at = 5;
  finished_at = 9;
  timed_out = false;
  cancelled = true;
  reason = "agent_stopped";
  err = none;
}

abbrev ended : Process
ended = record stopping { exited = true; result = some result }

stopping-ended : Reaches stopping ended
unfolding time_out terminate wait exit_status
stopping-ended =
    after _ _ _ (times_out stopping)
      (after _ _ _ (ends stopping exit_error (signaled 15) 9 refl) (stay ended))

start-ended : Reaches (start 5) ended
unfolding start cancel terminate
start-ended = after _ _ _ (cancels (start 5) "agent_stopped") stopping-ended

Reaches-settled_example : HasSameCause stopping ended
Reaches-settled_example = Reaches-settled stopping ended stopping-ended refl

Reaches-result_example :
    (◌≡◌ {A = Bool} false false)
    × (◌≡◌ {A = Bool} true false → ◌≡◌ {A = String} "agent_stopped" "")
    × (◌≡◌ {A = ℕ} 5 5)
    × (◌≡◌ {A = ℕ} 1 1)
Reaches-result_example = Reaches-result 5 ended result start-ended refl

abbrev runner : Runner
runner = record { max_timeout = pos 7; grace = pos 0 }
