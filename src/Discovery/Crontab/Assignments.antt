-- ===== src/Discovery/Crontab/Assignments.antt =====
-- Environment assignments beside schedules.
use omj_agent.Base.{
  ℕ, ◌≡◌, refl, inl, inr, Bool, true, false, none, [], ◌∷◌, ◌==◌, arith, Bool-cases, Option-cases,
  subst,
}
use omj_agent.Text.{Text, codes, is_blank, is_space, all_of, has_prefix, trim_prefix}
use omj_agent.Text.Trim.{trim_left, trim_right, trim_space}
use omj_agent.Text.Split.{cut, break_at}
use omj_agent.Discovery.Names.{starts}
use omj_agent.Discovery.Schedule.{cut_field, cron_schedule, minute_field, later_fields}
use omj_agent.Discovery.Schedule.Fields.{read_fields-cons, cron_schedule-cases}
use omj_agent.Discovery.Schedule.Runes.{is_number_rune, validate-number_runes}
use omj_agent.Discovery.Crontab.{is_letter, environment_assignment}

-- No name starts with what is neither a letter nor an underscore.
environment_assignment-none :
    (c : ℕ) (s : Text)
    → is_letter c ≡ false
    → is_space c ≡ false
    → environment_assignment (c ∷ s) ≡ none
unfolding environment_assignment trim_space
environment_assignment-none c s l b = elim (Bool-cases (c == b'=')) [
  | inl is ↦ ground (arith, is)
  | inr isnt ↦ elim (Option-cases (cut b'=' s)) [
    | inl e ↦ ground (arith, isnt, e)
    | inr ((before, after), e) ↦ ground (arith, isnt, e, l, b)
  ]
]

cut_field-first :
    (c : ℕ) (s : Text) → is_blank c ≡ false → (cut_field (c ∷ s)).0 ≡ c ∷ (break_at is_blank s).0
unfolding cut_field
cut_field-first c s h = ground (arith, h)

space-blank : (c : ℕ) → is_space c ≡ false → is_blank c ≡ false
unfolding is_space
space-blank c h = ground (arith, h)

assignment-nil : environment_assignment [] ≡ none
unfolding environment_assignment
assignment-nil = refl

at-letter : (c : ℕ) (s : Text) → has_prefix (codes "@") (c ∷ s) ≡ true → is_letter c ≡ false
at-letter c s h = ground (arith, h)

number-letter :
    (c : ℕ) (t u : Text) → u ≡ c ∷ t → all_of is_number_rune u ≡ true → is_letter c ≡ false
number-letter c t u e h = ground (arith, h, e)

scheduled-none :
    (text schedule rest : Text)
    → starts is_space text ≡ false
    → cron_schedule (trim_prefix (codes "-") text) ≡ inr (schedule, rest)
    → environment_assignment text ≡ none
scheduled-none [] schedule rest b h = assignment-nil
scheduled-none (c ∷ s) schedule rest b h = elim (Bool-cases (b'-' == c)) [
  | inl is ↦ environment_assignment-none c s (ground (arith, is)) b
  | inr isnt ↦
      let same : trim_prefix (codes "-") (c ∷ s) ≡ c ∷ s = ground (arith, isnt) in
      let h' : cron_schedule (c ∷ s) ≡ inr (schedule, rest) =
        subst (λ t. cron_schedule t ≡ inr (schedule, rest)) same h in
      elim (cron_schedule-cases (c ∷ s) schedule rest h') [
        | inl n ↦ environment_assignment-none c s (at-letter c s n.prefix) b
        | inr five ↦
            let r =
              read_fields-cons 0 minute_field later_fields (c ∷ s) five.values rest five.read in
            let runes = validate-number_runes minute_field refl (cut_field (c ∷ s)).0 r.valid in
            let first = cut_field-first c s (space-blank c b) in
            environment_assignment-none c s (number-letter c _ _ first runes) b
      ]
]

trim_left-starts : (p : ℕ → Bool) (t : Text) → starts p (trim_left p t) ≡ false
trim_left-starts p [] = refl
trim_left-starts p (c ∷ t) = ground (arith, trim_left-starts p t)

-- A line that has a schedule, with or without the hyphen before it, is not read as an environment
-- assignment.
pub environment_assignment-cron_schedule :
    (raw schedule rest : Text)
    → cron_schedule (trim_prefix (codes "-") (trim_space raw)) ≡ inr (schedule, rest)
    → environment_assignment (trim_space raw) ≡ none
unfolding trim_space
environment_assignment-cron_schedule raw schedule rest h =
    scheduled-none (trim_space raw) schedule rest
      (trim_left-starts is_space (trim_right is_space raw)) h
