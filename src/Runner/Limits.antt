-- ===== src/Runner/Limits.antt =====
-- The limits of `Runner` in internal/runner/runner.go. Durations are in nanoseconds.
use omj_agent.Base.{
  ◌≡◌, true, not, ◌||◌, if◌then◌else◌, ℤ, pos, negsuc, is_positive, ltb_ℤ, arith, ◌≤◌, to_ℕ,
}

pub record Runner : Type 0 where
  pub max_timeout : ℤ
  pub grace : ℤ

-- 72 * time.Hour
abbrev pub default_max_timeout : ℤ
default_max_timeout = pos 259200000000000

-- 10 * time.Second
abbrev pub default_grace : ℤ
default_grace = pos 10000000000

abbrev pub limit_of : Runner → ℤ
limit_of r = if not (is_positive r.max_timeout) then default_max_timeout else r.max_timeout

unfoldable pub timeout : Runner → ℤ → ℤ
timeout r requested =
    let limit = limit_of r in
    if not (is_positive requested) || ltb_ℤ limit requested then limit else requested

unfoldable pub grace_of : Runner → ℤ
grace_of r = if not (is_positive r.grace) then default_grace else r.grace

within :
    (limit requested : ℤ)
    → is_positive limit ≡ true
    → let t = if not (is_positive requested) || ltb_ℤ limit requested then limit else requested in
      (is_positive t ≡ true)
      × (to_ℕ t ≤ to_ℕ limit)
      × (is_positive requested ≡ true → to_ℕ t ≤ to_ℕ requested)
within (pos l) (pos r) p = ground (arith, p)
within (pos l) (negsuc r) p = ground (arith, p)
within (negsuc l) r p = absurd (ground (arith, p))

limit_of-positive : (r : Runner) → is_positive (limit_of r) ≡ true
limit_of-positive r = ground arith

-- No run is unlimited: whatever timeout is asked for and whatever the local limit is, the timer gets a
-- positive time within the limit, and no more than was asked for if that is positive.
pub timeout-within :
    (r : Runner) (requested : ℤ)
    → let t = timeout r requested in
      (is_positive t ≡ true)
      × (to_ℕ t ≤ to_ℕ (limit_of r))
      × (is_positive requested ≡ true → to_ℕ t ≤ to_ℕ requested)
unfolding timeout
timeout-within r requested = within (limit_of r) requested (limit_of-positive r)
