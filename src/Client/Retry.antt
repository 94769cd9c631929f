-- ===== src/Client/Retry.antt =====
-- `Retry` of internal/client/backoff.go. The i-th call of the operation and of the sleep are
-- functions of `i`; the operation works on a state of its caller's. The loop takes fuel, and says
-- so when it runs out.
pub mod Outcomes
use omj_agent.Base.{
  ℕ, zero, suc, ◌+◌, ◌≤◌, ◌<◌, ◌≡◌, ◌≢◌, ◌⊎◌, refl, Bool, true, false, Option, none, some, List, [],
  ◌∷◌, ltb, if◌then◌else◌, arith, All, Bool-cases, Option-cases, inl, inr, ap, ◌∙◌, sym,
}
use omj_agent.Client.Errors.{ClientError, joined, is_retryable, retry_after_of}
use omj_agent.Client.Backoff.{Floats, Backoff, next, reset}

pub data RetryResult : Type 0 where
  done running : RetryResult
  failed : ClientError → RetryResult

-- One sleep, and the error that it came after.
pub record Wait : Type 0 where
  pub error : ClientError
  pub delay : ℕ

module _ (fl : Floats) {S : Type 0} (random : ℕ → fl.F) (op : ℕ → S → S × Option ClientError)
    (sleep : ℕ → ℕ → Option ClientError) where
  pub record Retried : Type 0 where
    pub backoff : Backoff fl
    pub state : S
    pub result : RetryResult
    pub waits : List Wait

  -- `delay`, which is at least the error's Retry-After.
  abbrev pub delay_of : ℕ → ClientError → Backoff fl → ℕ
  delay_of i err b =
      let delay = (next fl (random i) b).0 in
      if ltb delay (retry_after_of err) then retry_after_of err else delay

  abbrev pub waited : Wait → Retried → Retried
  waited w r = record r { waits = w ∷ r.waits }

  unfoldable pub retry : ℕ → ℕ → Backoff fl → S → Retried
  retry zero i b s = record { backoff = b; state = s; result = running; waits = [] }
  retry (suc fuel) i b s =
      let (s', r) = op i s in
      elim r [
        | none ↦ record { backoff = reset fl b; state = s'; result = done; waits = [] }
        | some err ↦
            let b' = (next fl (random i) b).1 in
            let w : Wait = record { error = err; delay = delay_of i err b } in
            elim (is_retryable err) [
              | false ↦ record { backoff = b; state = s'; result = failed err; waits = [] }
              | true ↦ elim (sleep i (delay_of i err b)) [
                | some stop ↦ record {
                  backoff = b';
                  state = s';
                  result = failed (joined stop err);
                  waits = w ∷ [];
                }
                | none ↦ waited w (retry fuel (suc i) b' s')
              ]
            ]
      ]

  -- One rule for the loop: what holds of its five ways to go on holds of the whole.
  module _ {ℓ} (P : ℕ → ℕ → Backoff fl → S → Retried → Type ℓ)
      (out_of_fuel : (i : ℕ) (b : Backoff fl) (s : S)
        → P zero i b s (record { backoff = b; state = s; result = running; waits = [] }))
      (success : (fuel i : ℕ) (b : Backoff fl) (s : S)
        → (op i s).1 ≡ none
        → P
            (suc fuel)
            i
            b
            s
            (record { backoff = reset fl b; state = (op i s).0; result = done; waits = [] }))
      (final : (fuel i : ℕ) (b : Backoff fl) (s : S) (err : ClientError)
        → (op i s).1 ≡ some err
        → is_retryable err ≡ false
        → P
            (suc fuel)
            i
            b
            s
            (record { backoff = b; state = (op i s).0; result = failed err; waits = [] }))
      (stopped : (fuel i : ℕ) (b : Backoff fl) (s : S) (err stop : ClientError)
        → (op i s).1 ≡ some err
        → is_retryable err ≡ true
        → sleep i (delay_of i err b) ≡ some stop
        → P (suc fuel) i b s (record {
          backoff = (next fl (random i) b).1;
          state = (op i s).0;
          result = failed (joined stop err);
          waits = record { error = err; delay = delay_of i err b } ∷ [];
        }))
      (again : (fuel i : ℕ) (b : Backoff fl) (s : S) (err : ClientError) (r : Retried)
        → (op i s).1 ≡ some err
        → is_retryable err ≡ true
        → sleep i (delay_of i err b) ≡ none
        → P fuel (suc i) (next fl (random i) b).1 (op i s).0 r
        → P (suc fuel) i b s (waited (record { error = err; delay = delay_of i err b }) r)) where
    pub retry_rule : (fuel i : ℕ) (b : Backoff fl) (s : S) → P fuel i b s (retry fuel i b s)
    unfolding retry
    retry_rule zero i b s = out_of_fuel i b s
    retry_rule (suc fuel) i b s = elim (Option-cases (op i s).1) [
      | inl e ↦ rw (e, retry) (success fuel i b s e)
      | inr (err, e) ↦ elim (Bool-cases (is_retryable err)) [
        | inr f ↦ rw (e, f, retry) (final fuel i b s err e f)
        | inl t ↦ elim (Option-cases (sleep i (delay_of i err b))) [
          | inr (stop, z) ↦ rw (e, t, z, retry) (stopped fuel i b s err stop e t z)
          | inl z ↦
              rw (e, t, z, retry)
                (again fuel i b s err _ e t z
                  (retry_rule fuel (suc i) (next fl (random i) b).1 (op i s).0))
        ]
      ]
    ]
