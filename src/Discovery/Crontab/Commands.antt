-- ===== src/Discovery/Crontab/Commands.antt =====
-- The percent signs of a command.
use omj_agent.Base.{
  ℕ, ◌≡◌, refl, ap, Bool, false, [], ◌∷◌, ◌++◌, ◌==◌, if◌then◌else◌, arith, Bool-cases, inl, inr,
  append-nil,
}
use omj_agent.Text.{Text, is_blank}
use omj_agent.Text.Trim.{trim_right}
use omj_agent.Discovery.Names.{starts}
use omj_agent.Discovery.Crontab.{unescape, cron_command}

-- How a command is written in a crontab: a backslash before each percent sign.
abbrev pub escape : Text → Text
escape [] = []
escape (c ∷ s) = let rest = escape s in if c == b'%' then b'\\' ∷ b'%' ∷ rest else c ∷ rest

abbrev percent : ℕ → Bool
percent c = c == b'%'

unescape-cons :
    (c : ℕ) (t : Text)
    → percent c ≡ false
    → starts percent t ≡ false
    → unescape (c ∷ t) ≡ c ∷ unescape t
unescape-cons c [] h k = ground (arith, h)
unescape-cons c (d ∷ t) h k = ground (arith, h, k)

starts-escape : (s t : Text) → starts percent t ≡ false → starts percent (escape s ++ t) ≡ false
starts-escape [] t h = h
starts-escape (c ∷ s) t h = ground arith

unescape-escape :
    (s t : Text) → starts percent t ≡ false → unescape (escape s ++ t) ≡ s ++ unescape t
unescape-escape [] t h = refl
unescape-escape (c ∷ s) t h = elim (Bool-cases (percent c)) [
  | inl is ↦ ground (arith, is, unescape-escape s t h)
  | inr isnt ↦ ground (
    arith,
    isnt,
    unescape-escape s t h,
    unescape-cons c (escape s ++ t) isnt (starts-escape s t h),
  )
]

unescape_all : (s : Text) → unescape (escape s) ≡ s
unescape_all s = cc (unescape-escape s [] refl, append-nil (escape s), append-nil s)

unescape-percent : (input : Text) → unescape (b'%' ∷ input) ≡ []
unescape-percent [] = refl
unescape-percent (c ∷ input) = refl

-- What cron would run of a command whose percent signs are escaped is the command itself, less the
-- blanks at its end; whatever backslashes it has.
pub cron_command-escape : (s : Text) → cron_command (escape s) ≡ trim_right is_blank s
unfolding cron_command
cron_command-escape s = ap (trim_right is_blank) (unescape_all s)

trim_right-blank : (s : Text) → trim_right is_blank (s ++ b' ' ∷ []) ≡ trim_right is_blank s
trim_right-blank [] = refl
trim_right-blank (c ∷ s) = rw (trim_right-blank s, trim_right) refl

-- An unescaped percent sign after a blank ends the command: what cron would run does not depend on what
-- follows the sign.
pub cron_command-percent :
    (s input : Text) → cron_command (escape s ++ b' ' ∷ b'%' ∷ input) ≡ trim_right is_blank s
unfolding cron_command
cron_command-percent s input =
    rw (unescape-escape s (b' ' ∷ b'%' ∷ input) refl)
      (rw (unescape-percent input) (trim_right-blank s))
