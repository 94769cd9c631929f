-- ===== src/Base/Int.antt =====
-- Go's signed integers, where a negative value is possible: `negsuc n` is -(n + 1).
use Prim.Native.Nat.{ℕ, ◌<◌, ◌%◌, ◌-◌}
use mathlib.Core.Bool.{Bool, true, false}
use native.Mathlib.Omega.{arith}
use omj_agent.Base.Booleans.{if◌then◌else◌, ltb, ◌==◌}

pub data ℤ : Type 0 where
  pos : ℕ → ℤ
  negsuc : ℕ → ℤ

-- The value, where it is at least 0.
abbrev pub to_ℕ : ℤ → ℕ
to_ℕ (pos n) = n
to_ℕ (negsuc n) = 0

-- `0 < z`
abbrev pub is_positive : ℤ → Bool
is_positive (pos n) = ltb 0 n
is_positive (negsuc n) = false

-- `if x <= 0 { x = def }`
abbrev pub positive_or : ℕ → ℤ → ℕ
positive_or d z = if is_positive z then to_ℕ z else d

pub positive_or-pos : (d : ℕ) (z : ℤ) → 0 < d → 0 < positive_or d z
positive_or-pos d (pos n) h = ground arith
positive_or-pos d (negsuc n) h = h

-- `a < b`
abbrev pub ltb_ℤ : ℤ → ℤ → Bool
ltb_ℤ (pos a) (pos b) = ltb a b
ltb_ℤ (pos a) (negsuc b) = false
ltb_ℤ (negsuc a) (pos b) = true
ltb_ℤ (negsuc a) (negsuc b) = ltb b a

abbrev pub min_ℤ : ℤ → ℤ → ℤ
min_ℤ a b = if ltb_ℤ b a then b else a

-- A product or sum of nonnegative values as Go's `int64` holds it.
abbrev pub wrap_i64 : ℕ → ℤ
wrap_i64 n =
    let m = n % 18446744073709551616 in
    if ltb m 9223372036854775808 then pos m else negsuc (18446744073709551615 - m)

-- `z == 0`
abbrev pub is_zero : ℤ → Bool
is_zero (pos n) = n == 0
is_zero (negsuc n) = false
