-- ===== src/Runner/Process.antt =====
-- `Process` of internal/runner/runner.go and internal/runner/terminate_unix.go. Cancellations, the
-- timer, failing signals and the end of the process come in any order: a step relation. The mutex
-- makes each of them one step.
pub mod Termination
use omj_agent.Base.{
  ℕ, suc, ◌≡◌, String, Bool, true, false, not, ◌||◌, Option, none, some, if◌then◌else◌, ℤ, negsuc,
  pos, ◌+◌,
}
use omj_agent.Agent.Types.{Result}

-- `groups` counts the goroutines that terminate the group.
pub record Process : Type 0 where
  pub started_at : ℕ
  pub timer : Bool
  pub exited : Bool
  pub terminating : Bool
  pub timed_out : Bool
  pub cancelled : Bool
  pub reason : String
  pub terminate_err : Option String
  pub groups : ℕ
  pub result : Option Result

-- What `cmd.Wait` returns: nothing, an exit status, the delay's error, or another one.
pub data WaitError : Type 0 where
  no_error exit_error wait_delay : WaitError
  other_error : String → WaitError

-- `cmd.ProcessState`: missing, ended by a signal, or with an exit code.
pub data ProcessState : Type 0 where
  missing : ProcessState
  signaled : ℕ → ProcessState
  exited : ℤ → ProcessState

unfoldable pub start : ℕ → Process
start now = record {
  started_at = now;
  timer = true;
  exited = false;
  terminating = false;
  timed_out = false;
  cancelled = false;
  reason = "";
  terminate_err = none;
  groups = 0;
  result = none;
}

unfoldable pub terminate : Bool → String → Process → Process
terminate timed_out reason p = if p.exited || p.terminating then p else record p {
  terminating = true;
  timed_out = timed_out;
  cancelled = not timed_out;
  reason = reason;
  timer = false;
  groups = suc p.groups;
}

unfoldable pub cancel : String → Process → Process
cancel reason p = terminate false reason p

unfoldable pub time_out : Process → Process
time_out p = terminate true "" p

-- The end of `signalGroup`, for an error other than that no such group exists.
unfoldable pub signal_failed : String → Process → Process
signal_failed err p = elim p.terminate_err [
  | none ↦ record p { terminate_err = some err }
  | some first ↦ p
]

unfoldable pub exit_status : ProcessState → ℤ × Option ℕ
exit_status missing = (negsuc 0, none)
exit_status (signaled n) = (pos (128 + n), some n)
exit_status (exited code) = (code, none)

abbrev pub wait_err : WaitError → Option String
wait_err (other_error text) = some text
wait_err _ = none

-- `wait`, once `cmd.Wait` has returned.
unfoldable pub wait : WaitError → ProcessState → ℕ → Process → Process
wait err state now p =
    let (code, signal) = exit_status state in
    record p {
      timer = false;
      exited = true;
      result = some (record {
        exit_code = code;
        signal = signal;
        started_at = p.started_at;
        finished_at = now;
        timed_out = p.timed_out;
        cancelled = p.cancelled;
        reason = p.reason;
        err = elim (wait_err err) [ none ↦ p.terminate_err | some e ↦ some e ];
      });
    }

-- The timer may have fired before it was stopped, so it is not asked for. A signal is sent only by
-- a group's goroutine; the process is waited for once.
pub data Step : Process → Process → Type 0 where
  cancels : (p : Process) (reason : String) → Step p (cancel reason p)
  times_out : (p : Process) → Step p (time_out p)
  signal_fails : (p : Process) (err : String) → p.terminating ≡ true → Step p (signal_failed err p)
  ends :
      (p : Process) (err : WaitError) (state : ProcessState) (now : ℕ)
      → p.exited ≡ false
      → Step p (wait err state now p)

pub data Reaches : Process → Process → Type 0 where
  stay : (p : Process) → Reaches p p
  after : (p q r : Process) → Step p q → Reaches q r → Reaches p r
