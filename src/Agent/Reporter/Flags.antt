-- ===== src/Agent/Reporter/Flags.antt =====
-- What the flags of a report say of the requests that were made: internal/agent/reporter.go.
use omj_agent.Base.{
  ◌≡◌, refl, String, Bool, true, false, not, ◌||◌, ◌&&◌, none, some, List, [], ◌∷◌, ◌==◌,
  if◌then◌else◌, length, ◌⊎◌, inl, inr, arith, Bool-cases,
}
use omj_agent.Client.Errors.{ClientError, is_retryable}
use omj_agent.Client.Backoff.{Floats}
use omj_agent.Agent.Reporter.{
  Call, beat, sent, is_refusal, Report, cancel_process, retry_later, heartbeat,
}

-- Whether the connection is down after the calls: a call failed in a way that may pass, and no
-- heartbeat has succeeded since. An error that refuses the run says nothing of the connection.
abbrev pub is_down : List Call → Bool
is_down [] = false
is_down (beat none ∷ cs) = false
is_down (beat (some err) ∷ cs) =
    let d = is_down cs in if is_refusal err then d else is_retryable err || d
is_down (sent b (inl err) ∷ cs) =
    let d = is_down cs in if is_refusal err then d else is_retryable err || d
is_down (sent b (inr t) ∷ cs) = is_down cs

-- Whether the server wants no more output.
abbrev pub is_over : List Call → Bool
is_over [] = false
is_over (beat none ∷ cs) = is_over cs
is_over (beat (some err) ∷ cs) = is_refusal err || is_over cs
is_over (sent b (inl err) ∷ cs) = is_refusal err || not (is_retryable err) || is_over cs
is_over (sent b (inr t) ∷ cs) = t || is_over cs

-- Whether it wants no more heartbeats.
abbrev pub is_silent : List Call → Bool
is_silent [] = false
is_silent (beat (some err) ∷ cs) = is_refusal err || is_silent cs
is_silent (_ ∷ cs) = is_silent cs

-- Output is sent only while the server wants it, and only over a connection that is not down; no
-- batch is empty; no heartbeat follows one that was refused.
abbrev pub IsLegal : List Call → Type 0
IsLegal [] = Unit
IsLegal (beat r ∷ cs) = (is_silent cs ≡ false) × IsLegal cs
IsLegal (sent b r ∷ cs) =
    ((is_over cs ≡ false) × (is_down cs ≡ false) × ((length b == 0) ≡ false)) × IsLegal cs

module _ (fl : Floats) (run_id : String) where
  -- The flags say what the log says.
  pub record IsInStep (p : Report fl run_id true) : Type 0 where
    pub legal : IsLegal p.log
    pub down : p.disconnected ≡ is_down p.log
    pub over : p.output_done ≡ is_over p.log
    pub beats : p.heartbeats ≡ not (is_silent p.log)
    pub ends : is_silent p.log ≡ true → p.output_done ≡ true

  pub cancel_process-IsInStep :
      (wanted : Bool) (p : Report fl run_id true)
      → IsInStep p
      → IsInStep (cancel_process fl run_id true wanted p)
  unfolding cancel_process
  cancel_process-IsInStep wanted p h = elim (Bool-cases (wanted && true)) [
    | inl t ↦
        rw (t, cancel_process)
          (record { legal = h.legal; down = h.down; over = h.over; beats = h.beats; ends = h.ends })
    | inr f ↦ rw (f, cancel_process) h
  ]

  pub heartbeat-IsInStep :
      (answer : ClientError ⊎ Bool) (p : Report fl run_id true)
      → is_silent p.log ≡ false
      → IsInStep p
      → IsInStep (heartbeat fl run_id true answer p).0
  unfolding heartbeat
  heartbeat-IsInStep (inr wanted) p s h =
      cancel_process-IsInStep wanted _ (record {
        legal = (s, h.legal);
        down = refl;
        over = h.over;
        beats = h.beats;
        ends = h.ends;
      })
  heartbeat-IsInStep (inl err) p s h = elim (Bool-cases (is_refusal err)) [
    | inl t ↦ rw (t) (record {
      legal = (s, h.legal);
      down = ground (arith, t, s, h.down, h.over, h.beats, h.ends);
      over = ground (arith, t, s, h.down, h.over, h.beats, h.ends);
      beats = ground (arith, t, s, h.down, h.over, h.beats, h.ends);
      ends = λ e. ground (arith, e, t, s, h.ends);
    })
    | inr f ↦ elim (Bool-cases (is_retryable err)) [
      | inl r ↦
          rw (f, r)
            (record {
              legal = (s, h.legal);
              down = ground (arith, f, r, s, h.down, h.over, h.beats, h.ends);
              over = ground (arith, f, r, s, h.down, h.over, h.beats, h.ends);
              beats = ground (arith, f, r, s, h.down, h.over, h.beats, h.ends);
              ends = λ e. ground (arith, e, f, r, s, h.ends);
            })
      | inr n ↦
          rw (f, n)
            (record {
              legal = (s, h.legal);
              down = ground (arith, f, n, s, h.down, h.over, h.beats, h.ends);
              over = ground (arith, f, n, s, h.down, h.over, h.beats, h.ends);
              beats = ground (arith, f, n, s, h.down, h.over, h.beats, h.ends);
              ends = λ e. ground (arith, e, f, n, s, h.ends);
            })
    ]
  ]

  -- The heartbeat that returns no error leaves a connection.
  pub heartbeat-up :
      (answer : ClientError ⊎ Bool) (p : Report fl run_id true)
      → (heartbeat fl run_id true answer p).1 ≡ none
      → ((heartbeat fl run_id true answer p).0.disconnected ≡ false)
        × ((heartbeat fl run_id true answer p).0.output_done ≡ p.output_done)
  unfolding heartbeat cancel_process
  heartbeat-up (inr wanted) p e = ground arith
  heartbeat-up (inl err) p e = absurd (ground (arith, e))

  pub retry_later-IsInStep :
      (random : fl.F) (err : ClientError) (p : Report fl run_id true)
      → IsInStep p
      → IsInStep (retry_later fl run_id true random err p)
  unfolding retry_later
  retry_later-IsInStep random err p h = elim (Bool-cases (p.waiting || not (is_retryable err))) [
    | inl t ↦ rw (t, retry_later) h
    | inr f ↦
        rw (f, retry_later)
          (record { legal = h.legal; down = h.down; over = h.over; beats = h.beats; ends = h.ends })
  ]
