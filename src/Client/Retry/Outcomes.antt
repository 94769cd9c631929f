-- ===== src/Client/Retry/Outcomes.antt =====
-- How `Retry` of internal/client/backoff.go ends, and how it waits.
use omj_agent.Base.{
  ℕ, ◌+◌, ◌≤◌, ◌<◌, ◌≡◌, ◌≢◌, ◌⊎◌, refl, true, false, Option, none, some, arith, All, inl, inr, ap,
  ◌∙◌, sym,
}
use omj_agent.Client.Errors.{ClientError, joined, is_retryable, retry_after_of}
use omj_agent.Client.Backoff.{Floats, Backoff}
use omj_agent.Client.Retry.{RetryResult, done, running, failed, Wait, delay_of, retry, retry_rule}

-- A wait comes after an error that is worth another attempt, and lasts at least as long as the
-- server asked.
abbrev pub IsPatient : Wait → Type 0
IsPatient w = (is_retryable w.error ≡ true) × (retry_after_of w.error ≤ w.delay)

module _ (fl : Floats) {S : Type 0} (random : ℕ → fl.F) (op : ℕ → S → S × Option ClientError)
    (sleep : ℕ → ℕ → Option ClientError) where
  delay_of-patient :
      (i : ℕ) (err : ClientError) (b : Backoff fl)
      → retry_after_of err ≤ delay_of fl random op sleep i err b
  delay_of-patient i err b = ground arith

  -- Each wait of a retry comes after an error that is worth another attempt, and lasts at least as long
  -- as the error's Retry-After.
  pub retry-IsPatient :
      (fuel i : ℕ) (b : Backoff fl) (s : S)
      → All IsPatient (retry fl random op sleep fuel i b s).waits
  retry-IsPatient =
      retry_rule fl random op sleep (λ _ _ _ _ r. All IsPatient r.waits) (λ i b s. tt)
        (λ fuel i b s e. tt) (λ fuel i b s err e f. tt)
        (λ fuel i b s err stop e t z. ((t, delay_of-patient i err b), tt))
        (λ fuel i b s err r e t z rest. ((t, delay_of-patient i err b), rest))

  -- Why a retry ended: the operation succeeded in the state that is left; or it failed with an
  -- error that is final; or a sleep was stopped after an error that is not.
  abbrev pub Explains : RetryResult → S → Type 0
  Explains running s = Unit {0}
  Explains done s = (j : ℕ) × (s₀ : S) × (op j s₀ ≡ (s, none))
  Explains (failed e) s =
      (j : ℕ) × (s₀ : S) × (err : ClientError) × (op j s₀ ≡ (s, some err))
      × (((e ≡ err) × (is_retryable err ≡ false))
          ⊎ ((is_retryable err ≡ true)
              × ((stop : ClientError) × (d : ℕ) × (sleep j d ≡ some stop) × (e ≡ joined stop err))))

  -- A retry that says it is done has had its last call succeed; one that fails ends either with the
  -- last call's own error, which is final, or with that error joined to the one that stopped the wait
  -- after it; and the state it leaves is that of the last call.
  pub retry-Explains :
      (fuel i : ℕ) (b : Backoff fl) (s : S)
      → let r = retry fl random op sleep fuel i b s in Explains r.result r.state
  retry-Explains =
      retry_rule fl random op sleep (λ _ _ _ _ r. Explains r.result r.state) (λ i b s. tt)
        (λ fuel i b s e. (i, s, λ k. ((op i s).0, e k)))
        (λ fuel i b s err e f. (i, s, err, λ k. ((op i s).0, e k), inl (refl, f)))
        (λ fuel i b s err stop e t z. (
          i,
          s,
          err,
          λ k. ((op i s).0, e k),
          inr (t, (stop, delay_of fl random op sleep i err b, z, refl)),
        ))
        (λ fuel i b s err r e t z rest. rest)

  -- The n-th round ends the loop, whatever state and wait it meets.
  abbrev pub Ends : ℕ → Type 0
  Ends n =
      (s : S) (d : ℕ) (err : ClientError)
      → (op n s).1 ≡ some err
      → is_retryable err ≡ true
      → sleep n d ≢ none

  -- If the n-th round ends the loop whatever it meets, then a loop that starts no later than there and
  -- has the fuel to reach it does not run out of fuel.
  pub retry-ne-running :
      (n : ℕ)
      → Ends n
      → (fuel i : ℕ) (b : Backoff fl) (s : S) → i ≤ n
      → n < i + fuel
      → (retry fl random op sleep fuel i b s).result ≢ running
  retry-ne-running n ends =
      retry_rule fl random op sleep (λ fuel i b s r. i ≤ n → n < i + fuel → r.result ≢ running)
        (λ i b s low high. absurd (omega arith)) (λ fuel i b s e low high q. cc)
        (λ fuel i b s err e f low high q. cc) (λ fuel i b s err stop e t z low high q. cc)
        (λ fuel i b s err r e t z rest low high.
          let d = delay_of fl random op sleep i err b in
          let later : i ≡ n → ⊥ = λ q.
            ends s d err (ap (λ j. (op j s).1) (sym q) ∙ e) t (ap (λ j. sleep j d) (sym q) ∙ z) in
          rest (omega (arith, later)) (omega arith))

  -- What each call of the operation keeps, the whole retry keeps.
  pub retry_inv :
      (Q : S → Type 0)
      → ((i : ℕ) (s : S) → Q s → Q (op i s).0)
      → (fuel i : ℕ) (b : Backoff fl) (s : S) → Q s
      → Q (retry fl random op sleep fuel i b s).state
  retry_inv Q keep =
      retry_rule fl random op sleep (λ fuel i b s r. Q s → Q r.state) (λ i b s h. h)
        (λ fuel i b s e h. keep i s h) (λ fuel i b s err e f h. keep i s h)
        (λ fuel i b s err stop e t z h. keep i s h)
        (λ fuel i b s err r e t z rest h. rest (keep i s h))
