-- ===== src/Discovery/Schedule/Fields.antt =====
-- What `cronSchedule` reads, field by field.
use omj_agent.Base.{
  ℕ, suc, ◌≡◌, refl, ◌⊎◌, inl, inr, true, false, none, List, [], ◌∷◌, arith, Bool-cases,
  Option-cases, ⊎-cases,
}
use omj_agent.Text.{Text, codes, is_nil, has_prefix, to_lower, contains_text}
use omj_agent.Text.Split.{join}
use omj_agent.Discovery.Schedule.{
  CronField, cut_field, read_fields, validate, nickname_schedule, five_schedule, cron_nicknames,
  cron_fields, cron_schedule,
}

-- The first field that was read, and what was read after it.
pub record IsRead (i : ℕ) (f : CronField) (fs : List CronField) (text : Text) (vs : List Text)
    (rest : Text) : Type 0 where
  pub others : List Text
  pub first : vs ≡ (cut_field text).0 ∷ others
  pub filled : is_nil (cut_field text).0 ≡ false
  pub valid : validate f (cut_field text).0 ≡ none
  pub next : read_fields (suc i) fs (cut_field text).1 ≡ inr (others, rest)

pub read_fields-cons :
    (i : ℕ) (f : CronField) (fs : List CronField) (text : Text) (vs : List Text) (rest : Text)
    → read_fields i (f ∷ fs) text ≡ inr (vs, rest)
    → IsRead i f fs text vs rest
read_fields-cons i f fs text vs rest h =
    let (value, rest') = cut_field text in
    elim (Bool-cases (is_nil value)) [
      | inl e ↦ absurd (ground (arith, h, e))
      | inr e ↦ elim (Option-cases (validate f value)) [
        | inr (err, v) ↦ absurd (ground (arith, h, e, v))
        | inl v ↦ elim (⊎-cases (read_fields (suc i) fs rest')) [
          | inl (err, n) ↦ absurd (ground (arith, h, e, v, n))
          | inr ((others, left), n) ↦ record {
            others = others;
            first = ground (arith, h, e, v, n);
            filled = e;
            valid = v;
            next = ground (arith, h, e, v, n);
          }
        ]
      ]
    ]

-- The two forms of a schedule.
pub record IsNickname (text schedule rest : Text) : Type 0 where
  pub prefix : has_prefix (codes "@") text ≡ true
  pub known : contains_text cron_nicknames (to_lower (cut_field text).0) ≡ true
  pub nickname : schedule ≡ (cut_field text).0
  pub after : rest ≡ (cut_field text).1

pub record IsFive (text schedule rest : Text) : Type 0 where
  pub prefix : has_prefix (codes "@") text ≡ false
  pub values : List Text
  pub joined : schedule ≡ join (codes " ") values
  pub read : read_fields 0 cron_fields text ≡ inr (values, rest)

pub cron_schedule-cases :
    (text schedule rest : Text)
    → cron_schedule text ≡ inr (schedule, rest)
    → IsNickname text schedule rest ⊎ IsFive text schedule rest
unfolding cron_schedule nickname_schedule five_schedule
cron_schedule-cases text schedule rest h = elim (Bool-cases (has_prefix (codes "@") text)) [
  | inl t ↦ elim (Bool-cases (contains_text cron_nicknames (to_lower (cut_field text).0))) [
    | inl k ↦ inl record {
      prefix = t;
      known = k;
      nickname = (ground (arith, h, t, k));
      after = (ground (arith, h, t, k));
    }
    | inr k ↦ absurd (ground (arith, h, t, k))
  ]
  | inr f ↦ elim (⊎-cases (read_fields 0 cron_fields text)) [
    | inl (err, n) ↦ absurd (ground (arith, h, f, n))
    | inr ((vs, left), n) ↦ inr record {
      prefix = f;
      values = vs;
      joined = (ground (arith, h, f, n));
      read = (ground (arith, h, f, n));
    }
  ]
]

pub known-nil : (s : Text) → contains_text cron_nicknames (to_lower s) ≡ true → is_nil s ≡ false
known-nil [] h = cc
known-nil (c ∷ s) h = refl
