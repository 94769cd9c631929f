-- ===== src/Agent/Reporter/Protocol.antt =====
-- The order of the requests that `supervise` of internal/agent/reporter.go makes.
use omj_agent.Base.{
  ◌≡◌, refl, String, Bool, true, false, ◌||◌, List, [], ◌∷◌, ◌==◌, if◌then◌else◌, length, inl, inr,
  arith, Bool-cases, Option-cases, ◌∙◌,
}
use omj_agent.Output.Chunk.{Chunk}
use omj_agent.Output.Buffer.{Buffer, next_batch}
use omj_agent.Client.Errors.{ClientError, is_retryable}
use omj_agent.Client.Backoff.{Floats, Backoff}
use omj_agent.Base.{⊎-cases}
use omj_agent.Agent.Reporter.{
  OutputResponse, sent, is_refusal, Answers, Report, heartbeat, accept, output_failed,
  append_output, reconnect, send_output, send_heartbeat, Step, flush, retry_ready, heartbeat_tick,
  other, step, steps, new_report,
}
use omj_agent.Agent.Reporter.Flags.{
  is_silent, IsLegal, IsInStep, cancel_process-IsInStep, heartbeat-IsInStep, heartbeat-up,
  retry_later-IsInStep,
}

module _ (fl : Floats) (run_id : String) where
  output_failed-IsInStep :
      (batch : List Chunk) (random : fl.F) (err : ClientError) (p : Report fl run_id true)
      → p.output_done ≡ false
      → p.disconnected ≡ false
      → (length batch == 0) ≡ false
      → IsInStep fl run_id p
      → IsInStep fl run_id (
          output_failed fl run_id true random err (record p { log = sent batch (inl err) ∷ p.log }))
  unfolding output_failed
  output_failed-IsInStep batch random err p live up some_bytes h =
      elim (Bool-cases (is_refusal err)) [
        | inl t ↦
            rw (t, output_failed)
              (record {
                legal = (
                  (ground (arith, h.over, live), ground (arith, h.down, up), some_bytes),
                  h.legal,
                );
                down = ground (arith, t, live, up, h.down, h.over, h.beats, h.ends);
                over = ground (arith, t, live, up, h.down, h.over, h.beats, h.ends);
                beats = ground (arith, t, live, up, h.down, h.over, h.beats, h.ends);
                ends = λ e. ground (arith, e, t, live, up, h.ends);
              })
        | inr f ↦ elim (Bool-cases (is_retryable err)) [
          | inl r ↦
              rw (f, r, output_failed)
                (retry_later-IsInStep fl run_id random err _ (record {
                  legal = (
                    (ground (arith, h.over, live), ground (arith, h.down, up), some_bytes),
                    h.legal,
                  );
                  down = ground (arith, f, r, live, up, h.down, h.over, h.beats, h.ends);
                  over = ground (arith, f, r, live, up, h.down, h.over, h.beats, h.ends);
                  beats = ground (arith, f, r, live, up, h.down, h.over, h.beats, h.ends);
                  ends = λ e. ground (arith, e, f, r, live, up, h.ends);
                }))
          | inr n ↦
              rw (f, n, output_failed)
                (record {
                  legal = (
                    (ground (arith, h.over, live), ground (arith, h.down, up), some_bytes),
                    h.legal,
                  );
                  down = ground (arith, f, n, live, up, h.down, h.over, h.beats, h.ends);
                  over = ground (arith, f, n, live, up, h.down, h.over, h.beats, h.ends);
                  beats = ground (arith, f, n, live, up, h.down, h.over, h.beats, h.ends);
                  ends = λ e. ground (arith, e, f, n, live, up, h.ends);
                })
        ]
      ]

  accept-IsInStep :
      (batch : List Chunk) (response : OutputResponse) (p : Report fl run_id true)
      → p.output_done ≡ false
      → p.disconnected ≡ false
      → (length batch == 0) ≡ false
      → IsInStep fl run_id p
      → IsInStep fl run_id (
          accept fl run_id true response
            (record p { log = sent batch (inr response.truncated) ∷ p.log }))
  unfolding accept
  accept-IsInStep batch response p live up some_bytes h =
      cancel_process-IsInStep fl run_id response.cancel_requested _
        (elim (Bool-cases response.truncated) [
          | inl t ↦ rw t (record {
            legal =
                ((ground (arith, h.over, live), ground (arith, h.down, up), some_bytes), h.legal);
            down = h.down;
            over = ground (arith, t);
            beats = h.beats;
            ends = λ e. refl;
          })
          | inr f ↦ rw f (record {
            legal =
                ((ground (arith, h.over, live), ground (arith, h.down, up), some_bytes), h.legal);
            down = h.down;
            over = ground (arith, f, h.over);
            beats = h.beats;
            ends = h.ends;
          })
        ])

  append_output-IsInStep :
      (batch : List Chunk) (answers : Answers fl run_id true) (p : Report fl run_id true)
      → p.output_done ≡ false
      → p.disconnected ≡ false
      → (length batch == 0) ≡ false
      → IsInStep fl run_id p
      → IsInStep fl run_id (append_output fl run_id true batch answers p)
  unfolding append_output
  append_output-IsInStep batch answers p live up some_bytes h = elim (⊎-cases answers.append) [
    | inl (err, e) ↦
        rw (e, append_output)
          (output_failed-IsInStep batch answers.random err p live up some_bytes h)
    | inr (response, e) ↦
        rw (e, append_output) (accept-IsInStep batch response p live up some_bytes h)
  ]

  live_silent :
      (p : Report fl run_id true)
      → p.output_done ≡ false
      → IsInStep fl run_id p
      → is_silent p.log ≡ false
  live_silent p live h = ground (arith, live, h.ends)

  reconnect-IsInStep :
      (batch : List Chunk) (answers : Answers fl run_id true) (p : Report fl run_id true)
      → p.output_done ≡ false
      → (length batch == 0) ≡ false
      → IsInStep fl run_id p
      → IsInStep fl run_id (reconnect fl run_id true batch answers p)
  unfolding reconnect
  reconnect-IsInStep batch answers p live z h =
      let beaten = heartbeat-IsInStep fl run_id answers.heartbeat p (live_silent p live h) h in
      elim (Option-cases (heartbeat fl run_id true answers.heartbeat p).1) [
        | inl e ↦
            let (up, same) = heartbeat-up fl run_id answers.heartbeat p e in
            rw (e, reconnect) (append_output-IsInStep batch answers _ (same ∙ live) up z beaten)
        | inr (err, e) ↦
            rw (e, reconnect) (retry_later-IsInStep fl run_id answers.random err _ beaten)
      ]

  if_rule :
      (t : Bool) (x y : Report fl run_id true)
      → (t ≡ true → IsInStep fl run_id x)
      → (t ≡ false → IsInStep fl run_id y)
      → IsInStep fl run_id (if t then x else y)
  if_rule true x y hx hy = hx refl
  if_rule false x y hx hy = hy refl

  send_output-IsInStep :
      (answers : Answers fl run_id true) (p : Report fl run_id true)
      → IsInStep fl run_id p
      → IsInStep fl run_id (send_output fl run_id true answers p)
  unfolding send_output
  send_output-IsInStep answers p h =
      let batch = next_batch run_id p.buffer in
      if_rule (p.output_done || p.waiting) _ _ (λ t. h)
        (λ f.
          let live : p.output_done ≡ false = ground (arith, f) in
          if_rule (length batch == 0) _ _ (λ t. h)
            (λ z.
              if_rule p.disconnected _ _ (λ d. reconnect-IsInStep batch answers p live z h)
                (λ up. append_output-IsInStep batch answers p live up z h)))

  step-IsInStep :
      (p : Report fl run_id true) (s : Step fl run_id true)
      → IsInStep fl run_id p
      → IsInStep fl run_id (step fl run_id true p s)
  unfolding step send_heartbeat
  step-IsInStep p (flush answers) h = send_output-IsInStep answers p h
  step-IsInStep p (retry_ready answers) h =
      send_output-IsInStep answers (record p { waiting = false })
        (record { legal = h.legal; down = h.down; over = h.over; beats = h.beats; ends = h.ends })
  step-IsInStep p (heartbeat_tick answers) h =
      if_rule p.heartbeats _ _
        (λ t. heartbeat-IsInStep fl run_id answers.heartbeat p (ground (arith, t, h.beats)) h)
        (λ f. h)
  step-IsInStep p (other buffer) h = record {
    legal = h.legal;
    down = h.down;
    over = h.over;
    beats = h.beats;
    ends = h.ends;
  }

  steps-IsInStep :
      (p : Report fl run_id true) (ss : List (Step fl run_id true))
      → IsInStep fl run_id p
      → IsInStep fl run_id (steps fl run_id true p ss)
  unfolding steps
  steps-IsInStep p [] h = h
  steps-IsInStep p (s ∷ ss) h = steps-IsInStep (step fl run_id true p s) ss (step-IsInStep p s h)

  -- While the process runs, whatever the server answers and however ticks, retries and output
  -- interleave: output is sent only while the server wants it, never empty, and after a failure that
  -- may pass only once a heartbeat has succeeded; and no heartbeat follows one that was refused.
  pub steps-IsLegal :
      (backoff : Backoff fl) (buffer : Buffer) (ss : List (Step fl run_id true))
      → IsLegal (steps fl run_id true (new_report fl run_id true backoff buffer) ss).log
  unfolding new_report
  steps-IsLegal backoff buffer ss =
      (steps-IsInStep (new_report fl run_id true backoff buffer) ss (record {
        legal = tt;
        down = refl;
        over = refl;
        beats = refl;
        ends = λ e. absurd (ground (arith, e));
      })).legal
