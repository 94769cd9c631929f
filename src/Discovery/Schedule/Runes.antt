-- ===== src/Discovery/Schedule/Runes.antt =====
-- The characters of a schedule that `cronSchedule` accepts.
use omj_agent.Base.{
  ℕ, ◌≡◌, refl, inl, inr, Bool, true, false, ◌&&◌, ◌||◌, none, List, [], ◌∷◌, ◌==◌, arith,
  Bool-cases, Option-cases, ==_iff,
}
use omj_agent.Text.{Text, is_lower, all_of, lower_rune, to_lower, text_eq_iff, contains_text, codes}
use omj_agent.Text.Split.{cut, split, cons_head}
use omj_agent.Text.Decimal.{atoi}
use omj_agent.Text.Decimal.RoundTrip.{is_numeric, atoi-all_of}
use omj_agent.Discovery.Schedule.{
  CronField, cut_parts, validate_value, validate_item, validate_items, validate,
}

-- A character of a name once in lower case, of a number, or between values.
unfoldable pub is_field_rune : ℕ → Bool
is_field_rune c =
    is_lower (lower_rune c) || is_numeric c || c == b'*' || c == b'/' || c == b',' || c == b'-'

abbrev pub all_lower : List Text → Bool
all_lower [] = true
all_lower (t ∷ ts) = all_of is_lower t && all_lower ts

contains-lower :
    (names : List Text) (t : Text)
    → all_lower names ≡ true
    → contains_text names t ≡ true
    → all_of is_lower t ≡ true
contains-lower [] t a c = cc
contains-lower (n ∷ names) t a c = ground (arith, text_eq_iff n t, contains-lower names t)

lower-runes : (t : Text) → all_of is_lower (to_lower t) ≡ true → all_of is_field_rune t ≡ true
unfolding is_field_rune lower_rune
lower-runes [] h = refl
lower-runes (c ∷ t) h = ground (arith, lower-runes t)

numeric-runes : (t : Text) → all_of is_numeric t ≡ true → all_of is_field_rune t ≡ true
unfolding is_field_rune lower_rune
numeric-runes [] h = refl
numeric-runes (c ∷ t) h = ground (arith, numeric-runes t)

abbrev pub all_texts : (ℕ → Bool) → List Text → Bool
all_texts p [] = true
all_texts p (t ∷ ts) = all_of p t && all_texts p ts

cons_head-all_of :
    (p : ℕ → Bool) (c : ℕ) (ts : List Text)
    → all_texts p (cons_head c ts) ≡ true
    → (p c ≡ true) × (all_texts p ts ≡ true)
cons_head-all_of p c [] h = ground (arith, h)
cons_head-all_of p c (t ∷ ts) h = ground (arith, h)

split-all_of :
    (p : ℕ → Bool) (sep : ℕ)
    → p sep ≡ true
    → (t : Text) → all_texts p (split sep t) ≡ true
    → all_of p t ≡ true
split-all_of p sep s [] h = refl
split-all_of p sep s (c ∷ t) h =
    ground (arith, s, h, ==_iff c sep, split-all_of p sep s t, cons_head-all_of p c (split sep t))

module _ (p : ℕ → Bool) where
  cut-all_of :
      (sep : ℕ) (t : Text)
      → p sep ≡ true
      → let (before, after, found) = cut_parts sep t in
        all_of p before ≡ true → all_of p after ≡ true → all_of p t ≡ true
  cut-all_of sep [] s b a = refl
  cut-all_of sep (c ∷ t) s b a = elim (Bool-cases (c == sep)) [
    | inl is ↦ ground (arith, is, s, b, a, ==_iff c sep)
    | inr isnt ↦ elim (Option-cases (cut sep t)) [
      | inl e ↦ ground (arith, isnt, e, s, b, a, cut-all_of sep t s)
      | inr ((before, after), e) ↦ ground (arith, isnt, e, s, b, a, cut-all_of sep t s)
    ]
  ]

  cut-none :
      (sep : ℕ) (t : Text) → (cut_parts sep t).2 ≡ false → all_of p (cut_parts sep t).1 ≡ true
  cut-none sep t h = ground (arith, h)

-- What numbers, separators and the names of a field pass, a valid field passes.
module _ (p : ℕ → Bool) (numbers : (t : Text) → all_of is_numeric t ≡ true → all_of p t ≡ true)
    (separators : all_of p (codes "*/,-") ≡ true) (f : CronField)
    (names : (t : Text) → contains_text f.names (to_lower t) ≡ true → all_of p t ≡ true) where
  atoi-all : (t : Text) → all_of p t ≡ false → atoi t ≡ none
  atoi-all t h = elim (Option-cases (atoi t)) [
    | inl e ↦ e
    | inr (z, e) ↦ absurd (ground (arith, h, numbers t (atoi-all_of t z e)))
  ]

  value-all : (item value : Text) → validate_value f item value ≡ none → all_of p value ≡ true
  unfolding validate_value
  value-all item value h = ground (arith, h, names value, atoi-all value)

  item-all : (item : Text) → validate_item f item ≡ none → all_of p item ≡ true
  unfolding validate_item
  item-all item h =
      let (value, step, has_step) = cut_parts b'/' item in
      let (from, to, is_range) = cut_parts b'-' value in
      ground (
        arith,
        h,
        separators,
        cut-all_of p b'/' item (ground (arith, separators)),
        cut-none p b'/' item,
        atoi-all step,
        text_eq_iff value (codes "*"),
        cut-all_of p b'-' value (ground (arith, separators)),
        cut-none p b'-' value,
        value-all item from,
        value-all item to,
      )

  items-all : (items : List Text) → validate_items f items ≡ none → all_texts p items ≡ true
  items-all [] h = refl
  items-all (item ∷ items) h = ground (arith, h, item-all item, items-all items)

  pub validate-all_of : (t : Text) → validate f t ≡ none → all_of p t ≡ true
  unfolding validate
  validate-all_of t h =
      split-all_of p b',' (ground (arith, separators)) t (items-all (split b',' t) h)

separator-runes : all_of is_field_rune (codes "*/,-") ≡ true
unfolding is_field_rune lower_rune
separator-runes = refl

pub validate-runes :
    (f : CronField)
    → all_lower f.names ≡ true
    → (t : Text) → validate f t ≡ none
    → all_of is_field_rune t ≡ true
validate-runes f n =
    validate-all_of is_field_rune numeric-runes separator-runes f
      λ t h. lower-runes t (contains-lower f.names (to_lower t) n h)

-- A character of a number, or between values.
abbrev pub is_number_rune : ℕ → Bool
is_number_rune c = is_numeric c || c == b'*' || c == b'/' || c == b','

number-runes : (t : Text) → all_of is_numeric t ≡ true → all_of is_number_rune t ≡ true
number-runes [] h = refl
number-runes (c ∷ t) h = ground (arith, number-runes t)

-- A field without names is made of numbers and separators.
pub validate-number_runes :
    (f : CronField)
    → f.names ≡ []
    → (t : Text) → validate f t ≡ none
    → all_of is_number_rune t ≡ true
validate-number_runes f n =
    validate-all_of is_number_rune number-runes refl f λ t h. absurd (ground (arith, n, h))
