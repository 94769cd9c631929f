-- ===== src/Config/File/Lines.antt =====
-- One setting, printed and read.
use omj_agent.Base.{
  ℕ, ◌≡◌, refl, sym, ◌∙◌, subst, Bool, true, false, not, ◌&&◌, ◌||◌, some, [], ◌∷◌, ◌++◌, ◌==◌,
  if◌then◌else◌, arith, append-nil, append_assoc,
}
use omj_agent.Text.{Text, codes, is_nil, is_space, all_of, has_any, has_prefix}
use omj_agent.Text.Trim.{trim_left, trim_right, trim_space}
use omj_agent.Text.Split.{cut, lines, lines_from}
use omj_agent.Config.File.{unquote, parse_pair, Parsing, parse_line}

-- No space at either end.
pub record IsTrimmed (v : Text) : Type 0 where
  pub left : trim_left is_space v ≡ v
  pub right : trim_right is_space v ≡ v

pub is_nil-eq : (s : Text) → is_nil s ≡ true → s ≡ []
is_nil-eq [] h = refl
is_nil-eq (c ∷ s) h = cc

pub is_nil-append : (s t : Text) → is_nil t ≡ false → is_nil (s ++ t) ≡ false
is_nil-append [] t h = h
is_nil-append (c ∷ s) t h = refl

pub trim_right-append :
    (p : ℕ → Bool) (s t : Text)
    → trim_right p (s ++ t)
      ≡ (if is_nil (trim_right p t) then trim_right p s else s ++ trim_right p t)
trim_right-append p [] t = ground (arith, is_nil-eq (trim_right p t))
trim_right-append p (c ∷ s) t =
    ground
      (arith, trim_right-append p s t, is_nil-append s (trim_right p t), is_nil-eq (trim_right p t))

cut-append :
    (sep : ℕ) (k v : Text)
    → has_any (λ c. c == sep) k ≡ false
    → cut sep (k ++ sep ∷ v) ≡ some (k, v)
cut-append sep [] v h = ground arith
cut-append sep (c ∷ k) v h = ground (arith, h, cut-append sep k v)

pub lines_from-append :
    (w l rest : Text)
    → has_any (λ c. c == b'\n') l ≡ false
    → lines_from w (l ++ b'\n' ∷ rest) ≡ (w ++ (l ++ b'\n' ∷ [])) ∷ lines rest
lines_from-append w [] rest h = refl
lines_from-append w (c ∷ l) rest h =
    ground
      (arith, h, lines_from-append (w ++ c ∷ []) l rest, append_assoc w (c ∷ []) (l ++ b'\n' ∷ []))

-- A key of the file: its name has no space, no sign and no line feed, and starts no comment.
abbrev pub is_key_rune : ℕ → Bool
is_key_rune c = not (is_space c) && not (c == b'=') && not (c == b'#')

trim_right-all : (k : Text) → all_of is_key_rune k ≡ true → trim_right is_space k ≡ k
trim_right-all [] h = refl
trim_right-all (c ∷ k) h = ground (arith, h, trim_right-all k)

trim_left-key :
    (k t : Text)
    → is_nil k ≡ false
    → all_of is_key_rune k ≡ true
    → trim_left is_space (k ++ t) ≡ k ++ t
trim_left-key [] t e h = cc
trim_left-key (c ∷ k) t e h = ground (arith, h)

key-sign :
    (k : Text) → all_of is_key_rune k ≡ true → has_any (λ c. c == b'=') (k ++ b' ' ∷ []) ≡ false
key-sign [] h = refl
key-sign (c ∷ k) h = ground (arith, h, key-sign k)

pub space-yes : is_space b' ' ≡ true
unfolding is_space
space-yes = refl

space-sign : is_space b'=' ≡ false
unfolding is_space
space-sign = refl

-- What `Cut` leaves after the sign of a setting.
abbrev rest_of : Text → Text
rest_of v = if is_nil v then [] else b' ' ∷ v

trim_value : (v : Text) → IsTrimmed v → trim_space (rest_of v) ≡ v
unfolding trim_space
trim_value v t = ground (arith, t.left, t.right, space-yes, is_nil-eq v)

trim_right-rest :
    (v : Text) → IsTrimmed v → trim_right is_space (codes " = " ++ v) ≡ b' ' ∷ b'=' ∷ rest_of v
trim_right-rest v t = ground (arith, t.right, space-yes, space-sign, is_nil-eq v)

setting-text :
    (k rest : Text)
    → is_nil k ≡ false
    → all_of is_key_rune k ≡ true
    → (is_nil ((k ++ b' ' ∷ []) ++ b'=' ∷ rest)
        || has_prefix (codes "#") ((k ++ b' ' ∷ []) ++ b'=' ∷ rest))
      ≡ false
setting-text [] rest e h = cc
setting-text (c ∷ k) rest e h = ground (arith, h)

module _ (k : Text) (filled : is_nil k ≡ false) (runes : all_of is_key_rune k ≡ true) where
  trim_key : trim_space (k ++ b' ' ∷ []) ≡ k
  unfolding trim_space
  trim_key =
      let trimmed : trim_right is_space (k ++ b' ' ∷ []) ≡ k =
        ground
          (arith, trim_right-append is_space k (b' ' ∷ []), space-yes, trim_right-all k runes) in
      rw trimmed
        (subst (λ t. trim_left is_space t ≡ t) (append-nil k) (trim_left-key k [] filled runes))

  trim_setting :
      (v : Text)
      → IsTrimmed v
      → trim_space (k ++ (codes " = " ++ v)) ≡ (k ++ b' ' ∷ []) ++ b'=' ∷ rest_of v
  unfolding trim_space
  trim_setting v t =
      let trimmed : trim_right is_space (k ++ (codes " = " ++ v)) ≡ k ++ b' ' ∷ b'=' ∷ rest_of v =
        ground (arith, trim_right-append is_space k (codes " = " ++ v), trim_right-rest v t) in
      rw trimmed (
        trim_left-key k (b' ' ∷ b'=' ∷ rest_of v) filled runes
        ∙ sym (append_assoc k (b' ' ∷ []) (b'=' ∷ rest_of v)))

  -- A setting that is printed is read as its key and its value.
  pub parse_line-setting :
      (line : ℕ) (v : Text) (p : Parsing)
      → IsTrimmed v
      → parse_line line (k ++ (codes " = " ++ v)) p ≡ parse_pair line k (unquote v) p
  unfolding parse_line
  parse_line-setting line v p t =
      rw
        (
          trim_setting v t,
          setting-text k (rest_of v) filled runes,
          cut-append b'=' (k ++ b' ' ∷ []) (rest_of v) (key-sign k runes),
          trim_key,
          trim_value v t,
        )
        refl
