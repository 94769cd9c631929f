-- ===== src/Client/Whole.antt =====
-- Whole numbers in the place of the floats of internal/client/backoff.go, for runs at concrete inputs.
use omj_agent.Base.{ℕ, ◌+◌, ◌-◌, ◌*◌, ◌^◌, ltb}
use omj_agent.Client.Backoff.{Floats}

-- Whole numbers in the place of floats: the jitter is then 0.
abbrev pub whole : Floats
whole = record {
  F = ℕ;
  of_ℕ = λ n. n;
  to_duration = λ x. x;
  plus = λ x y. x + y;
  minus = λ x y. x - y;
  times = λ x y. x * y;
  pow = λ x y. x ^ y;
  gt = λ x y. ltb y x;
  backoff_factor = 2;
  backoff_jitter = 0;
}
