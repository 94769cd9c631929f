-- ===== src/Discovery/Schedule.antt =====
-- The schedules of internal/discovery/crontab.go: `cronFields`, `cutField`, `cronSchedule` and the
-- checks of a field.
pub mod Fields
pub mod Runes
pub mod Reparse
use omj_agent.Base.{
  ℕ, zero, suc, ◌+◌, ◌≡◌, ◌⊎◌, inl, inr, Bool, true, false, not, ◌&&◌, ◌||◌, Option, none, some,
  List, [], ◌∷◌, ◌++◌, ltb, leb, ◌==◌, if◌then◌else◌, ℤ, pos, ltb_ℤ,
}
use omj_agent.Text.{Text, codes, is_nil, is_blank, has_prefix, to_lower, text_eq, contains_text}
use omj_agent.Text.Trim.{trim_left}
use omj_agent.Text.Split.{break_at, cut, split, join}
use omj_agent.Text.Decimal.{atoi, format_ℕ}
use omj_agent.Text.Quote.{quote}

pub record CronField : Type 0 where
  pub name : Text
  pub min : ℕ
  pub max : ℕ
  pub names : List Text

abbrev pub cron_nicknames : List Text
cron_nicknames =
    codes "@reboot"
    ∷ codes "@yearly"
    ∷ codes "@annually"
    ∷ codes "@monthly"
    ∷ codes "@weekly"
    ∷ codes "@daily"
    ∷ codes "@midnight"
    ∷ codes "@hourly"
    ∷ []

abbrev month_names : List Text
month_names =
    codes "jan"
    ∷ codes "feb"
    ∷ codes "mar"
    ∷ codes "apr"
    ∷ codes "may"
    ∷ codes "jun"
    ∷ codes "jul"
    ∷ codes "aug"
    ∷ codes "sep"
    ∷ codes "oct"
    ∷ codes "nov"
    ∷ codes "dec"
    ∷ []

abbrev day_names : List Text
day_names =
    codes "sun"
    ∷ codes "mon"
    ∷ codes "tue"
    ∷ codes "wed"
    ∷ codes "thu"
    ∷ codes "fri"
    ∷ codes "sat"
    ∷ []

abbrev pub minute_field : CronField
minute_field = record { name = codes "minute"; min = 0; max = 59; names = [] }

abbrev pub later_fields : List CronField
later_fields =
    record { name = codes "hour"; min = 0; max = 23; names = [] }
    ∷ record { name = codes "day of month"; min = 1; max = 31; names = [] }
    ∷ record { name = codes "month"; min = 1; max = 12; names = month_names }
    ∷ record { name = codes "day of week"; min = 0; max = 7; names = day_names }
    ∷ []

abbrev pub cron_fields : List CronField
cron_fields = minute_field ∷ later_fields

-- Why a schedule is refused: the texts of the `fmt.Errorf` calls.
pub data ScheduleError : Type 0 where
  unknown_nickname : Text → ScheduleError
  too_few_fields : ℕ → ScheduleError
  bad_step : CronField → Text → Text → ScheduleError
  empty_value not_a_value out_of_range : CronField → Text → ScheduleError

module _ (is_print : ℕ → Bool) where
  unfoldable pub error_text : ScheduleError → Text
  error_text (unknown_nickname nickname) =
      quote is_print nickname
      ++ codes " is not one of cron's shorthands ("
      ++ join (codes ", ") cron_nicknames
      ++ codes ")"
  error_text (too_few_fields i) =
      codes "a schedule needs five fields, and this line has " ++ format_ℕ i
  error_text (bad_step f item step) =
      codes "the "
      ++ f.name
      ++ codes " "
      ++ quote is_print item
      ++ codes " steps by "
      ++ quote is_print step
      ++ codes ", which is not a whole number above zero"
  error_text (empty_value f item) =
      codes "the " ++ f.name ++ codes " " ++ quote is_print item ++ codes " has an empty value"
  error_text (not_a_value f item) =
      codes "the "
      ++ f.name
      ++ codes " "
      ++ quote is_print item
      ++ codes " is neither a number nor a name cron knows"
  error_text (out_of_range f item) =
      codes "the "
      ++ f.name
      ++ codes " "
      ++ quote is_print item
      ++ codes " is outside "
      ++ format_ℕ f.min
      ++ codes "-"
      ++ format_ℕ f.max

unfoldable pub cut_field : Text → Text × Text
cut_field text =
    let pieces = break_at is_blank (trim_left is_blank text) in
    (pieces.0, trim_left is_blank pieces.1)

-- A check answers with the error it finds.
unfoldable pub validate_value : CronField → Text → Text → Option ScheduleError
validate_value f item value =
    if is_nil value
    then some (empty_value f item)
    else if contains_text f.names (to_lower value)
    then none
    else elim (atoi value) [
      | none ↦ some (not_a_value f item)
      | some n ↦
          if ltb_ℤ n (pos f.min) || ltb_ℤ (pos f.max) n then some (out_of_range f item) else none
    ]

-- The text before a separator and after it; what stands after it is empty where there is none.
abbrev pub cut_parts : ℕ → Text → Text × Text × Bool
cut_parts sep s = elim (cut sep s) [ none ↦ (s, [], false) | some (a, b) ↦ (a, b, true) ]

abbrev pub is_step : Text → Bool
is_step step = elim (atoi step) [ none ↦ false | some n ↦ not (ltb_ℤ n (pos 1)) ]

unfoldable pub validate_item : CronField → Text → Option ScheduleError
validate_item f item =
    let (value, step, has_step) = cut_parts b'/' item in
    if has_step && not (is_step step)
    then some (bad_step f item step)
    else if text_eq value (codes "*")
    then none
    else (let (from, to, is_range) = cut_parts b'-' value in
        elim (validate_value f item from) [
          | some e ↦ some e
          | none ↦ if not is_range then none else validate_value f item to
        ])

abbrev pub validate_items : CronField → List Text → Option ScheduleError
validate_items f [] = none
validate_items f (item ∷ items) =
    let rest = validate_items f items in
    elim (validate_item f item) [ some e ↦ some e | none ↦ rest ]

unfoldable pub validate : CronField → Text → Option ScheduleError
validate f field = validate_items f (split b',' field)

-- The loop over `cronFields`, `i` counting the fields that were read: their values, and the rest.
abbrev pub read_fields : ℕ → List CronField → Text → ScheduleError ⊎ (List Text × Text)
read_fields i [] rest = inr ([], rest)
read_fields i (f ∷ fs) rest =
    let (value, rest') = cut_field rest in
    let next = read_fields (suc i) fs rest' in
    if is_nil value then inl (too_few_fields i) else elim (validate f value) [
      | some e ↦ inl e
      | none ↦ elim next [ inl e ↦ inl e | inr (values, left) ↦ inr (value ∷ values, left) ]
    ]

-- `cronSchedule` of a shorthand.
unfoldable pub nickname_schedule : Text → ScheduleError ⊎ (Text × Text)
nickname_schedule text =
    let (nickname, rest) = cut_field text in
    if not (contains_text cron_nicknames (to_lower nickname))
    then inl (unknown_nickname nickname)
    else inr (nickname, rest)

-- `cronSchedule` of five fields.
unfoldable pub five_schedule : Text → ScheduleError ⊎ (Text × Text)
five_schedule text = elim (read_fields 0 cron_fields text) [
  | inl e ↦ inl e
  | inr (values, rest) ↦ inr (join (codes " ") values, rest)
]

unfoldable pub cron_schedule : Text → ScheduleError ⊎ (Text × Text)
cron_schedule text =
    if has_prefix (codes "@") text then nickname_schedule text else five_schedule text
