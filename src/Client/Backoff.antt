-- ===== src/Client/Backoff.antt =====
-- The wait of internal/client/backoff.go. Go's `float64` is a parameter: its type, the operations
-- that the code uses and the two constants.
use omj_agent.Base.{
  ℕ, suc, ◌≤◌, ◌≡◌, Bool, true, false, if◌then◌else◌, ap, ◌∙◌, arith, ℤ, positive_or, Bool-cases,
  inl, inr,
}

pub record Floats : Type 1 where
  pub F : Type 0
  pub of_ℕ : ℕ → F  -- float64(n), of a duration or an attempt
  pub to_duration : F → ℕ  -- time.Duration(x)
  pub plus : F → F → F
  pub minus : F → F → F
  pub times : F → F → F
  pub pow : F → F → F  -- math.Pow
  pub gt : F → F → Bool
  pub backoff_factor : F  -- 2.0
  pub backoff_jitter : F  -- 0.2

-- time.Second and 60 * time.Second, in nanoseconds
abbrev pub backoff_min : ℕ
backoff_min = 1000000000

abbrev pub backoff_max : ℕ
backoff_max = 60000000000

-- AuthRetryInterval, 5 * time.Minute
abbrev pub auth_retry_interval : ℕ
auth_retry_interval = 300000000000

attempt_step : (t : Bool) (a n : ℕ) → (a ≡ n → t ≡ true) → a ≤ n → (if t then a else suc a) ≤ n
attempt_step true a n same h = h
attempt_step false a n same h =
    let distinct : a ≡ n → ⊥ = λ e. cc (same e) in omega (arith, distinct)

module _ (fl : Floats) where
  open fl use {F, of_ℕ, to_duration, plus, minus, times, pow, gt, backoff_factor, backoff_jitter}

  pub record Backoff : Type 0 where
    pub minimum : ℤ
    pub maximum : ℤ
    pub factor : F
    pub jitter : F
    pub attempt : ℕ

  -- What is not positive takes its default.
  abbrev positive_float : F → F → F
  positive_float d x = if gt x (of_ℕ 0) then x else d

  -- `settings`
  abbrev minimum_of : Backoff → ℕ
  minimum_of b = positive_or backoff_min b.minimum

  abbrev pub maximum_of : Backoff → ℕ
  maximum_of b = positive_or backoff_max b.maximum

  abbrev factor_of : Backoff → F
  factor_of b = positive_float backoff_factor b.factor

  abbrev jitter_of : Backoff → F
  jitter_of b = positive_float backoff_jitter b.jitter

  -- The base before the cap, at an attempt.
  abbrev uncapped : Backoff → ℕ → F
  uncapped b attempt = times (of_ℕ (minimum_of b)) (pow (factor_of b) (of_ℕ attempt))

  abbrev is_over : Backoff → ℕ → Bool
  is_over b attempt = gt (uncapped b attempt) (of_ℕ (maximum_of b))

  unfoldable pub base_of : Backoff → F
  base_of b = if is_over b b.attempt then of_ℕ (maximum_of b) else uncapped b b.attempt

  -- `Next`, with the random number that it draws: the wait, and the backoff after it.
  unfoldable pub next : F → Backoff → ℕ × Backoff
  unfolding base_of
  next random b = (
    to_duration (
        times (base_of b)
          (plus (of_ℕ 1) (times (jitter_of b) (minus (times (of_ℕ 2) random) (of_ℕ 1))))),
    record b { attempt = if is_over b b.attempt then b.attempt else suc b.attempt },
  )

  unfoldable pub reset : Backoff → Backoff
  reset b = record b { attempt = 0 }

  -- The base of a wait is never above the maximum, where no float is above itself.
  pub base_of-capped :
      (b : Backoff) → ((x : F) → gt x x ≡ false) → gt (base_of b) (of_ℕ (maximum_of b)) ≡ false
  unfolding base_of
  base_of-capped b irrefl = elim (Bool-cases (is_over b b.attempt)) [
    | inl over ↦ rw over (irrefl (of_ℕ (maximum_of b)))
    | inr under ↦ rw (under) under
  ]

  -- Once an attempt passes the maximum the counter stays there, so a long outage cannot
  -- overflow it.
  pub next-attempt-le :
      (random : F) (b : Backoff) (n : ℕ)
      → is_over b n ≡ true
      → b.attempt ≤ n
      → let b' = (next random b).1 in (b'.attempt ≤ n) × (is_over b' n ≡ true)
  unfolding next
  next-attempt-le random b n over h =
      (attempt_step (is_over b b.attempt) b.attempt n (λ e. ap (is_over b) e ∙ over) h, over)
