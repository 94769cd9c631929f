-- ===== src/Text/Quote.antt =====
-- `%q`: a text between double quotes. `is_print` is the table of the printable characters beyond ASCII.
use omj_agent.Base.{
  ℕ, zero, suc, ◌+◌, ◌-◌, ◌/◌, ◌%◌, ◌&&◌, ◌||◌, Bool, [], ◌∷◌, ◌++◌, ltb, leb, ◌==◌, if◌then◌else◌,
}
use omj_agent.Text.{Text}

abbrev pub hex_digit : ℕ → ℕ
hex_digit d = if ltb d 10 then b'0' + d else b'a' + d - 10

-- The last `width` hexadecimal digits.
abbrev pub hex : ℕ → ℕ → Text → Text
hex zero n out = out
hex (suc width) n out = hex width (n / 16) (hex_digit (n % 16) ∷ out)

module _ (is_print : ℕ → Bool) where
  unfoldable pub quote_rune : ℕ → Text
  quote_rune c =
      if c == b'"' || c == b'\\'
      then b'\\' ∷ c ∷ []
      else if (leb 32 c && ltb c 127) || (ltb 127 c && is_print c)
      then c ∷ []
      else if c == 7
      then b'\\' ∷ b'a' ∷ []
      else if c == 8
      then b'\\' ∷ b'b' ∷ []
      else if c == 12
      then b'\\' ∷ b'f' ∷ []
      else if c == 10
      then b'\\' ∷ b'n' ∷ []
      else if c == 13
      then b'\\' ∷ b'r' ∷ []
      else if c == 9
      then b'\\' ∷ b't' ∷ []
      else if c == 11
      then b'\\' ∷ b'v' ∷ []
      else if ltb c 128
      then b'\\' ∷ b'x' ∷ hex 2 c []
      else if ltb c 65536
      then b'\\' ∷ b'u' ∷ hex 4 c []
      else b'\\' ∷ b'U' ∷ hex 8 c []

  abbrev pub quote_all : Text → Text
  quote_all [] = []
  quote_all (c ∷ s) = quote_rune c ++ quote_all s

  unfoldable pub quote : Text → Text
  quote s = b'"' ∷ quote_all s ++ b'"' ∷ []
