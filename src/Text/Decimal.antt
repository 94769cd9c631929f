-- ===== src/Text/Decimal.antt =====
-- `strconv.Atoi` and `%d`, on 64-bit signed integers.
pub mod RoundTrip
use omj_agent.Base.{
  ℕ, zero, suc, ◌+◌, ◌-◌, ◌*◌, ◌/◌, ◌%◌, ◌≤◌, Bool, true, false, Option, none, some, [], ◌∷◌, ◌++◌,
  ltb, leb, ◌==◌, if◌then◌else◌, ℤ, pos, negsuc,
}
use omj_agent.Text.{Text, is_digit, is_nil}

-- The number that digits spell behind `n`.
abbrev pub scan : ℕ → Text → Option ℕ
scan n [] = some n
scan n (c ∷ s) = let rest = scan (n * 10 + (c - b'0')) s in if is_digit c then rest else none

abbrev pub magnitude : Text → Option ℕ
magnitude s = if is_nil s then none else scan 0 s

abbrev pub max_i64 : ℕ
max_i64 = 9223372036854775807

-- A magnitude in range, under its sign.
abbrev pub signed : Bool → Option ℕ → Option ℤ
signed minus none = none
signed minus (some zero) = some (pos 0)
signed minus (some (suc n)) =
    if minus
    then (if leb n max_i64 then some (negsuc n) else none)
    else if leb (suc n) max_i64
    then some (pos (suc n))
    else none

unfoldable pub atoi : Text → Option ℤ
atoi [] = none
atoi (c ∷ s) =
    if c == b'-'
    then signed true (magnitude s)
    else signed false (if c == b'+' then magnitude s else magnitude (c ∷ s))

-- The digits of `n`, the last one first, before `out`.
abbrev pub digits : ℕ → ℕ → Text → Text
digits zero n out = out
digits (suc fuel) n out = elim (n / 10) [
  | zero ↦ (b'0' + n % 10) ∷ out
  | suc m ↦ digits fuel (suc m) ((b'0' + n % 10) ∷ out)
]

unfoldable pub format_ℕ : ℕ → Text
format_ℕ n = digits (suc n) n []

unfoldable pub format : ℤ → Text
format (pos n) = format_ℕ n
format (negsuc n) = b'-' ∷ format_ℕ (suc n)
