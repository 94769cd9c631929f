-- ===== src/Text.antt =====
-- Go's `strings` on UTF-8 text: a text is the list of its code points, and `size` is what `len` is of
-- it, in bytes.
pub mod Trim
pub mod Split
pub mod Decimal
pub mod Quote
use Prim.Native.Char.{code}
use omj_agent.Base.{
  ℕ, suc, ◌+◌, ◌-◌, ◌≡◌, ◌↔◌, refl, String, Bool, true, false, ◌&&◌, ◌||◌, Option, none, some, List,
  [], ◌∷◌, ◌++◌, map, arith, leb, ltb, ◌==◌, if◌then◌else◌, contains_func, ==_iff,
}

abbrev pub Text : Type 0
Text = List ℕ

-- A literal of the source.
abbrev pub codes : String → Text
codes String.[] = []
codes (String.◌∷◌ c s) = code c ∷ codes s

abbrev pub rune_len : ℕ → ℕ
rune_len c = if ltb c 128 then 1 else if ltb c 2048 then 2 else if ltb c 65536 then 3 else 4

abbrev pub size : Text → ℕ
size [] = 0
size (c ∷ s) = rune_len c + size s

abbrev pub is_nil {ℓ} : {A : Type ℓ} → List A → Bool
is_nil [] = true
is_nil (c ∷ s) = false

-- `a == b`
abbrev pub text_eq : Text → Text → Bool
text_eq [] [] = true
text_eq [] (d ∷ t) = false
text_eq (c ∷ s) [] = false
text_eq (c ∷ s) (d ∷ t) = (c == d) && text_eq s t

pub text_eq_iff : (s t : Text) → (text_eq s t ≡ true) ↔ (s ≡ t)
text_eq_iff [] [] = ground arith
text_eq_iff [] (d ∷ t) = ground arith
text_eq_iff (c ∷ s) [] = ground arith
text_eq_iff (c ∷ s) (d ∷ t) = ground (arith, text_eq_iff s t)

-- `slices.Contains`
abbrev pub contains_text : List Text → Text → Bool
contains_text ts t = contains_func (λ u. text_eq u t) ts

-- `unicode.IsSpace`
unfoldable pub is_space : ℕ → Bool
is_space c =
    (leb 9 c && leb c 13)
    || c == 32
    || c == 133
    || c == 160
    || c == 5760
    || (leb 8192 c && leb c 8202)
    || c == 8232
    || c == 8233
    || c == 8239
    || c == 8287
    || c == 12288

-- The set " \t".
abbrev pub is_blank : ℕ → Bool
is_blank c = c == b' ' || c == b'\t'

-- The set "\r\n".
abbrev pub is_line_end : ℕ → Bool
is_line_end c = c == b'\r' || c == b'\n'

abbrev pub is_lower : ℕ → Bool
is_lower c = leb b'a' c && leb c b'z'

abbrev pub is_upper : ℕ → Bool
is_upper c = leb b'A' c && leb c b'Z'

abbrev pub is_digit : ℕ → Bool
is_digit c = leb b'0' c && leb c b'9'

-- Whether some character, or each, passes the test.
abbrev pub has_any : (ℕ → Bool) → Text → Bool
has_any p s = contains_func p s

abbrev pub all_of : (ℕ → Bool) → Text → Bool
all_of p [] = true
all_of p (c ∷ s) = p c && all_of p s

-- `strings.CutPrefix`
abbrev pub cut_prefix : Text → Text → Option Text
cut_prefix [] s = some s
cut_prefix (p ∷ ps) [] = none
cut_prefix (p ∷ ps) (c ∷ s) = let rest = cut_prefix ps s in if p == c then rest else none

abbrev pub has_prefix : Text → Text → Bool
has_prefix p s = elim (cut_prefix p s) [ none ↦ false | some rest ↦ true ]

-- `strings.TrimPrefix`
abbrev pub trim_prefix : Text → Text → Text
trim_prefix p s = elim (cut_prefix p s) [ none ↦ s | some rest ↦ rest ]

-- What stands before a suffix.
abbrev pub cut_suffix : Text → Text → Option Text
cut_suffix p [] = if is_nil p then some [] else none
cut_suffix p (c ∷ s) =
    let rest = cut_suffix p s in
    if text_eq p (c ∷ s)
    then some []
    else elim rest [ none ↦ none | some before ↦ some (c ∷ before) ]

abbrev pub has_suffix : Text → Text → Bool
has_suffix p s = elim (cut_suffix p s) [ none ↦ false | some before ↦ true ]

-- `strings.TrimSuffix`
abbrev pub trim_suffix : Text → Text → Text
trim_suffix p s = elim (cut_suffix p s) [ none ↦ s | some before ↦ before ]

-- `strings.ToLower`, for a comparison with ASCII text: the other letters that it maps to ASCII are the
-- dotted capital I and the Kelvin sign.
unfoldable pub lower_rune : ℕ → ℕ
lower_rune c =
    if is_upper c then c + 32 else if c == 304 then b'i' else if c == 8490 then b'k' else c

abbrev pub to_lower : Text → Text
to_lower s = map lower_rune s
