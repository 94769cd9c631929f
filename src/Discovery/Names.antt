-- ===== src/Discovery/Names.antt =====
-- The name tests of internal/discovery/crontab.go and timers.go. A byte beyond ASCII is in none of the
-- sets, so a test of each byte and one of each rune agree.
use omj_agent.Base.{ℕ, Bool, false, not, ◌&&◌, ◌||◌, [], ◌∷◌, ltb, ◌==◌}
use omj_agent.Text.{Text, is_nil, is_lower, is_upper, is_digit, all_of, has_any, size}

abbrev pub is_alnum : ℕ → Bool
is_alnum c = is_lower c || is_upper c || is_digit c

abbrev pub is_cron_d_rune : ℕ → Bool
is_cron_d_rune c = is_alnum c || c == b'_' || c == b'-'

unfoldable pub is_cron_d_name : Text → Bool
is_cron_d_name name = not (is_nil name) && all_of is_cron_d_rune name

abbrev pub starts : (ℕ → Bool) → Text → Bool
starts p name = elim name [ [] ↦ false | c ∷ s ↦ p c ]

abbrev pub is_user_rune : ℕ → Bool
is_user_rune c = is_alnum c || c == b'_' || c == b'-' || c == b'.'

unfoldable pub is_user_name : Text → Bool
is_user_name name =
    not (is_nil name || ltb 32 (size name) || starts (λ c. c == b'-' || c == b'.') name)
    && all_of is_user_rune name

abbrev pub is_unit_rune : ℕ → Bool
is_unit_rune c =
    is_alnum c || c == b'.' || c == b'_' || c == b'-' || c == b'@' || c == b':' || c == b'\\'

unfoldable pub is_unit_name : Text → Bool
is_unit_name name =
    not (
      is_nil name
      || ltb 255 (size name)
      || starts (λ c. c == b'-') name
      || not (has_any (λ c. c == b'.') name))
    && all_of is_unit_rune name
