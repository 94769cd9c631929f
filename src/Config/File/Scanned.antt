-- ===== src/Config/File/Scanned.antt =====
-- The lines of a printed file, scanned.
use omj_agent.Base.{
  ℕ, suc, ◌+◌, ◌≤◌, ◌≡◌, refl, sym, subst, inl, inr, Bool, true, false, ◌||◌, none, some, List, [],
  ◌∷◌, ◌++◌, ◌==◌, arith, Bool-cases, append_assoc, ==_iff,
}
use omj_agent.Text.{
  Text, codes, size, is_nil, is_space, is_line_end, all_of, has_any, cut_suffix, trim_suffix,
}
use omj_agent.Text.Split.{lines}
use omj_agent.Config.File.{
  unquote, parse_pair, Parsing, setting, without_end, is_too_long, parse_lines,
}
use omj_agent.Config.File.Lines.{
  IsTrimmed, is_key_rune, is_nil-append, lines_from-append, parse_line-setting,
}

size-append : (s t : Text) → size (s ++ t) ≡ size s + size t
size-append [] t = omega arith
size-append (c ∷ s) t = omega (arith, size-append s t)

cut_suffix-end : (x : ℕ) (s : Text) → cut_suffix (x ∷ []) (s ++ x ∷ []) ≡ some s
cut_suffix-end x [] = ground arith
cut_suffix-end x (c ∷ s) = ground (arith, cut_suffix-end x s, is_nil-append s (x ∷ []) refl)

cut_suffix-none :
    (x : ℕ) (s : Text) → has_any (λ c. c == x) s ≡ false → cut_suffix (x ∷ []) s ≡ none
cut_suffix-none x [] h = refl
cut_suffix-none x (c ∷ s) h = ground (arith, h, cut_suffix-none x s)

trim_suffix-end : (x : ℕ) (s : Text) → trim_suffix (x ∷ []) (s ++ x ∷ []) ≡ s
trim_suffix-end x s = ground (arith, cut_suffix-end x s)

trim_suffix-none : (x : ℕ) (s : Text) → has_any (λ c. c == x) s ≡ false → trim_suffix (x ∷ []) s ≡ s
trim_suffix-none x s h = ground (arith, cut_suffix-none x s h)

-- A value that a line of the file can hold.
pub record IsSettable (v : Text) : Type 0 where
  pub trimmed : IsTrimmed v
  pub one_line : has_any is_line_end v ≡ false
  pub unquoted : unquote v ≡ v
  pub fits : size v ≤ 65000

abbrev pub IsKey : Text → Type 0
IsKey k = (is_nil k ≡ false) × (all_of is_key_rune k ≡ true) × (size k ≤ 100)

has_any-append : (p : ℕ → Bool) (s t : Text) → has_any p (s ++ t) ≡ (has_any p s || has_any p t)
has_any-append p [] t = refl
has_any-append p (c ∷ s) t = ground (arith, has_any-append p s t)

line_end-space : (c : ℕ) → is_line_end c ≡ true → is_space c ≡ true
unfolding is_space
line_end-space c h = elim (Bool-cases (c == b'\r')) [
  | inl e ↦ subst (λ d. is_space d ≡ true) (sym ((==_iff c b'\r').0 e)) refl
  | inr f ↦ subst (λ d. is_space d ≡ true) (sym ((==_iff c b'\n').0 (ground (arith, h, f)))) refl
]

key-line_end : (k : Text) → all_of is_key_rune k ≡ true → has_any is_line_end k ≡ false
key-line_end [] h = refl
key-line_end (c ∷ k) h = ground (arith, h, line_end-space c, key-line_end k)

line_end-none :
    (x : ℕ) (s : Text)
    → is_line_end x ≡ true
    → has_any is_line_end s ≡ false
    → has_any (λ c. c == x) s ≡ false
line_end-none x [] l h = refl
line_end-none x (c ∷ s) l h = ground (arith, l, h, line_end-none x s l)

module _ (k v : Text) (key : IsKey k) (settable : IsSettable v) where
  abbrev body : Text
  body = k ++ (codes " = " ++ v)

  body-line_end : has_any is_line_end body ≡ false
  body-line_end = ground (
    arith,
    has_any-append is_line_end k (codes " = " ++ v),
    key-line_end k key.1,
    settable.one_line,
  )

  setting-body : setting k v ≡ body ++ codes "\n"
  setting-body = sym (append_assoc k (codes " = " ++ v) (codes "\n"))

  pub lines-setting : (rest : Text) → lines (setting k v ++ rest) ≡ setting k v ∷ lines rest
  lines-setting rest =
      rw (setting-body, append_assoc body (codes "\n") rest)
        (lines_from-append [] body rest (line_end-none b'\n' body refl body-line_end))

  without_feed : trim_suffix (codes "\n") (setting k v) ≡ body
  without_feed = rw setting-body (trim_suffix-end b'\n' body)

  whole : without_end (setting k v) ≡ body
  whole =
      rw without_feed (trim_suffix-none b'\r' body (line_end-none b'\r' body refl body-line_end))

  short : is_too_long (setting k v) ≡ false
  short = rw without_feed (ground (arith, size-append k (codes " = " ++ v), settable.fits, key.2))

  pub parse_lines-setting :
      (line : ℕ) (ls : List Text) (p : Parsing)
      → parse_lines line (setting k v ∷ ls) p ≡ (elim (parse_pair line k v p) [
        | inl err ↦ inl err
        | inr p' ↦ parse_lines (suc line) ls p'
      ])
  parse_lines-setting line ls p =
      rw (short, whole)
        (rw (parse_line-setting k key.0 key.1 line v p settable.trimmed, settable.unquoted) refl)
