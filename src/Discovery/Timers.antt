-- ===== src/Discovery/Timers.antt =====
-- internal/discovery/timers.go: what systemctl prints. A map from keys to values is an association list,
-- a key in it once.
pub mod Groups
use omj_agent.Base.{
  ℕ, zero, suc, ◌+◌, Bool, true, false, not, ◌&&◌, ◌||◌, Option, none, some, List, [], ◌∷◌, ◌++◌,
  length, ◌==◌, if◌then◌else◌, is_some,
}
use omj_agent.Text.{
  Text, codes, is_nil, is_line_end, is_digit, has_any, text_eq, cut_prefix, has_prefix, has_suffix,
}
use omj_agent.Text.Trim.{trim_right, trim_space}
use omj_agent.Text.Split.{cut, cut_text, cut_last, split_text, join, fields, lines}
use omj_agent.Text.Decimal.{atoi}
use omj_agent.Discovery.Entries.{ScheduleKind, kind_calendar, kind_monotonic}
use omj_agent.Discovery.Names.{is_unit_name}

abbrev pub Properties : Type 0
Properties = List (Text × List Text)

-- `properties[key] = append(properties[key], value)`
abbrev pub append_value : Text → Text → Properties → Properties
append_value key value [] = (key, value ∷ []) ∷ []
append_value key value ((k, vs) ∷ ps) =
    let rest = append_value key value ps in
    if text_eq k key then (k, vs ++ value ∷ []) ∷ ps else (k, vs) ∷ rest

-- `properties[key]`
abbrev pub values_of : Text → Properties → List Text
values_of key [] = []
values_of key ((k, vs) ∷ ps) = let rest = values_of key ps in if text_eq k key then vs else rest

abbrev pub show_lines : List Text → Properties → Properties
show_lines [] ps = ps
show_lines (line ∷ more) ps = show_lines more (elim (cut b'=' (trim_right is_line_end line)) [
  | none ↦ ps
  | some (key, value) ↦ append_value key value ps
])

unfoldable pub show_properties : Text → Properties
show_properties out = show_lines (lines out) []

abbrev pub first : List Text → Text
first [] = []
first (v ∷ vs) = v

-- The loop of `propertyGroups`. Each round takes at least two characters off the text.
abbrev pub groups_from : ℕ → Text → List Text
groups_from zero rest = []
groups_from (suc fuel) rest = elim (cut b'{' rest) [
  | none ↦ []
  | some (skipped, opened) ↦ elim (cut b'}' opened) [
    | none ↦ []
    | some (group, more) ↦ trim_space group ∷ groups_from fuel more
  ]
]

unfoldable pub property_groups : Text → List Text
property_groups value = groups_from (suc (length value)) value

-- What stands before a separator, or all of it.
abbrev pub before_text : Text → Text → Text
before_text sep s = elim (cut_text sep s) [ none ↦ s | some (before, after) ↦ before ]

unfoldable pub group_schedule : Text → Text × Text
group_schedule group = elim (cut b'=' (before_text (codes " ; ") group)) [
  | none ↦ ([], [])
  | some (name, expression) ↦ (trim_space name, trim_space expression)
]

abbrev pub last_of : List Text → Text
last_of [] = []
last_of (f ∷ []) = f
last_of (f ∷ g ∷ fs) = last_of (g ∷ fs)

-- The set "0123456789*,:".
abbrev pub is_calendar_rune : ℕ → Bool
is_calendar_rune c = is_digit c || c == b'*' || c == b',' || c == b':'

unfoldable pub calendar_timezone : Text → Text
calendar_timezone expression =
    let last = last_of (fields expression) in
    if text_eq last (codes "UTC")
    then last
    else if has_any (λ c. c == b'/') last && not (has_any is_calendar_rune last)
    then last
    else []

pub record TimerSchedule : Type 0 where
  pub expression : Text
  pub kind : ScheduleKind
  pub timezone : Text

abbrev pub calendar_groups : List Text → List TimerSchedule
calendar_groups [] = []
calendar_groups (group ∷ groups) =
    let rest = calendar_groups groups in
    let expression = (group_schedule group).1 in
    if is_nil expression
    then rest
    else record {
      expression = expression;
      kind = kind_calendar;
      timezone = calendar_timezone expression;
    }
      ∷ rest

abbrev pub monotonic_groups : List Text → List TimerSchedule
monotonic_groups [] = []
monotonic_groups (group ∷ groups) =
    let rest = monotonic_groups groups in
    let (name, expression) = group_schedule group in
    if is_nil expression
    then rest
    else record {
      expression = name ++ codes "=" ++ expression;
      kind = kind_monotonic;
      timezone = [];
    }
      ∷ rest

-- The groups of each value, in order.
abbrev pub all_groups : List Text → List Text
all_groups [] = []
all_groups (v ∷ vs) = property_groups v ++ all_groups vs

unfoldable pub timer_schedules : Properties → List TimerSchedule
timer_schedules ps =
    calendar_groups (all_groups (values_of (codes "TimersCalendar") ps))
    ++ monotonic_groups (all_groups (values_of (codes "TimersMonotonic") ps))

abbrev pub field_among : Text → List Text → Text
field_among name [] = []
field_among name (field ∷ fs) =
    let rest = field_among name fs in
    elim (cut_prefix (name ++ codes "=") (trim_space field)) [
      | some value ↦ trim_space value
      | none ↦ rest
    ]

unfoldable pub group_field : Text → Text → Text
group_field group name = field_among name (split_text (codes " ; ") 0 group)

unfoldable pub exec_argv : Text → Text
exec_argv group = elim (cut_text (codes "argv[]=") group) [
  | none ↦ group_field group (codes "path")
  | some (before, argv) ↦ elim (cut_text (codes " ; ignore_errors=") argv) [
    | some (line, after) ↦ trim_space line
    | none ↦ elim (cut_last (codes " ; ") argv) [
      | some line ↦ trim_space line
      | none ↦ trim_space argv
    ]
  ]
]

abbrev pub exec_lines : List Text → List Text
exec_lines [] = []
exec_lines (group ∷ groups) =
    let rest = exec_lines groups in
    let line = exec_argv group in if is_nil line then rest else line ∷ rest

unfoldable pub exec_start : Properties → Text × ℕ
exec_start ps =
    let found = exec_lines (all_groups (values_of (codes "ExecStart") ps)) in
    (join (codes " ; ") found, length found)

unfoldable pub service_user : Properties → Text
service_user ps =
    let user = first (values_of (codes "User") ps) in
    if not (is_nil user) then user else codes "root"

-- The loop of `timerRow`, which looks for the last column that names a timer.
abbrev pub timer_among : List Text → Option (Text × Text)
timer_among [] = none
timer_among (field ∷ fs) = elim (timer_among fs) [
  | some found ↦ some found
  | none ↦
      if has_suffix (codes ".timer") field
      then some (field, if is_unit_name (first fs) then first fs else [])
      else none
]

unfoldable pub timer_row : Text → Option (Text × Text)
timer_row row = timer_among (fields row)

unfoldable pub is_list_timers_footer : Text → Bool
is_list_timers_footer row =
    if text_eq row (codes "No timers running.") || has_prefix (codes "Pass --all") row
    then true
    else elim (cut b' ' row) [
      | none ↦ false
      | some (count, rest) ↦
          if not (is_some (atoi count))
          then false
          else text_eq rest (codes "timers listed.") || text_eq rest (codes "timer listed.")
    ]

abbrev pub kept_notes : List Text → List Text
kept_notes [] = []
kept_notes (note ∷ notes) = let rest = kept_notes notes in if is_nil note then rest else note ∷ rest

unfoldable pub join_notes : List Text → Text
join_notes notes = join (codes "; ") (kept_notes notes)
