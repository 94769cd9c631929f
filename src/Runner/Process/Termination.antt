-- ===== src/Runner/Process/Termination.antt =====
-- Why a process of internal/runner/runner.go ended.
use omj_agent.Base.{
  ℕ, ◌≡◌, refl, inl, inr, String, Bool, true, false, ◌||◌, ◌&&◌, none, some, if◌then◌else◌, arith,
  Option-cases, Bool-cases, ◌∙◌,
}
use omj_agent.Agent.Types.{Result}
use omj_agent.Runner.Process.{
  Process, WaitError, ProcessState, start, terminate, cancel, time_out, signal_failed, wait, Step,
  Reaches, cancels, times_out, signal_fails, ends, stay, after,
}

-- The flags that say why the group was signalled.
abbrev pub HasSameCause : Process → Process → Type 0
HasSameCause p q =
    (q.timed_out ≡ p.timed_out)
    × (q.cancelled ≡ p.cancelled)
    × (q.reason ≡ p.reason)
    × (q.groups ≡ p.groups)

abbrev pub is_settled : Process → Bool
is_settled p = p.exited || p.terminating

step-settled :
    (p q : Process) → Step p q → is_settled p ≡ true → HasSameCause p q × (is_settled q ≡ true)
unfolding cancel time_out terminate signal_failed wait
step-settled p q (cancels _ reason) h = ground (arith, h)
step-settled p q (times_out _) h = ground (arith, h)
step-settled p q (signal_fails _ err t) h = ground (arith, h)
step-settled p q (ends _ err state now e) h = ground (arith, h)

-- The first termination wins: once a process is being terminated or has exited, no later cancellation
-- or timeout changes why it was signalled, and no second signal sequence begins.
pub Reaches-settled : (p q : Process) → Reaches p q → is_settled p ≡ true → HasSameCause p q
Reaches-settled p q (stay _) h = (refl, refl, refl, refl)
Reaches-settled p q (after _ m _ s ss) h =
    let (same, settled) = step-settled p m s h in
    let rest = Reaches-settled m q ss settled in
    (rest.0 ∙ same.0, rest.1 ∙ same.1, rest.2 ∙ same.2, rest.3 ∙ same.3)

-- What holds at every moment of a process.
record IsSound (now : ℕ) (p : Process) : Type 0 where
  started : p.started_at ≡ now
  cause : (p.timed_out || p.cancelled) ≡ p.terminating
  one : (p.timed_out && p.cancelled) ≡ false
  uncaused : p.cancelled ≡ false → p.reason ≡ ""
  once : p.groups ≡ (if p.terminating then 1 else 0)
  kept : p.terminating ≡ false → p.terminate_err ≡ none
  running : p.exited ≡ false → p.result ≡ none
  reported :
      (r : Result)
      → p.result ≡ some r
      → (r.timed_out ≡ p.timed_out)
        × (r.cancelled ≡ p.cancelled)
        × (r.reason ≡ p.reason)
        × (r.started_at ≡ now)

start-IsSound : (now : ℕ) → IsSound now (start now)
unfolding start
start-IsSound now = record {
  started = refl;
  cause = refl;
  one = refl;
  uncaused = λ e. refl;
  once = refl;
  kept = λ e. refl;
  running = λ e. refl;
  reported = λ r e. absurd (ground (arith, e));
}

terminate-IsSound :
    (now : ℕ) (timed_out : Bool) (reason : String) (p : Process)
    → (timed_out ≡ true → reason ≡ "")
    → IsSound now p
    → IsSound now (terminate timed_out reason p)
unfolding terminate
terminate-IsSound now timed_out reason p named h = elim (Bool-cases (p.exited || p.terminating)) [
  | inl t ↦ rw (t, terminate) h
  | inr f ↦
      rw (f, terminate)
        (record {
          started = h.started;
          cause = ground arith;
          one = ground arith;
          uncaused = λ e. ground (arith, e, named);
          once = ground (arith, f, h.once);
          kept = λ e. absurd (ground (arith, e));
          running = h.running;
          reported = λ r e. absurd (ground (arith, e, f, h.running));
        })
]

signal_failed-IsSound :
    (now : ℕ) (err : String) (p : Process)
    → p.terminating ≡ true
    → IsSound now p
    → IsSound now (signal_failed err p)
unfolding signal_failed
signal_failed-IsSound now err p t h = elim (Option-cases p.terminate_err) [
  | inr (first, e) ↦ rw (e, signal_failed) h
  | inl e ↦
      rw (e, signal_failed)
        (record {
          started = h.started;
          cause = h.cause;
          one = h.one;
          uncaused = h.uncaused;
          once = h.once;
          kept = λ f. absurd (ground (arith, t, f));
          running = h.running;
          reported = h.reported;
        })
]

wait-IsSound :
    (now : ℕ) (err : WaitError) (state : ProcessState) (at : ℕ) (p : Process)
    → IsSound now p
    → IsSound now (wait err state at p)
unfolding wait
wait-IsSound now err state at p h = record {
  started = h.started;
  cause = h.cause;
  one = h.one;
  uncaused = h.uncaused;
  once = h.once;
  kept = h.kept;
  running = λ e. absurd (ground (arith, e));
  reported = λ r e. ground (arith, e, h.started);
}

step-IsSound : (now : ℕ) (p q : Process) → Step p q → IsSound now p → IsSound now q
unfolding cancel time_out
step-IsSound now p q (cancels _ reason) h =
    terminate-IsSound now false reason p (λ e. absurd (ground (arith, e))) h
step-IsSound now p q (times_out _) h = terminate-IsSound now true "" p (λ e. refl) h
step-IsSound now p q (signal_fails _ err t) h = signal_failed-IsSound now err p t h
step-IsSound now p q (ends _ err state at e) h = wait-IsSound now err state at p h

Reaches-IsSound : (now : ℕ) (p q : Process) → Reaches p q → IsSound now p → IsSound now q
Reaches-IsSound now p q (stay _) h = h
Reaches-IsSound now p q (after _ m _ s ss) h = Reaches-IsSound now m q ss (step-IsSound now p m s h)

-- However cancellations, timeouts, failing signals and the end of the process interleave, its result
-- never says both timed out and cancelled, has a reason only if it was cancelled, and says one of the
-- two exactly if one signal sequence was begun, of which there is at most one.
pub Reaches-result :
    (now : ℕ) (q : Process) (r : Result)
    → Reaches (start now) q
    → q.result ≡ some r
    → ((r.timed_out && r.cancelled) ≡ false)
      × (r.cancelled ≡ false → r.reason ≡ "")
      × (r.started_at ≡ now)
      × (q.groups ≡ (if r.timed_out || r.cancelled then 1 else 0))
Reaches-result now q r ss e =
    let h = Reaches-IsSound now (start now) q ss (start-IsSound now) in
    ground (arith, h.reported r e, h.one, h.uncaused, h.cause, h.once)
