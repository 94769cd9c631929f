-- ===== src/Discovery/Crontab.antt =====
-- internal/discovery/crontab.go: the lines of a crontab. `is_print` is the table that `%q` reads.
pub mod Commands
pub mod Notes
pub mod Assignments
use omj_agent.Base.{
  ℕ, ◌⊎◌, inl, inr, Bool, true, false, not, ◌&&◌, ◌||◌, Option, none, some, List, [], ◌∷◌, ◌++◌,
  leb, ◌==◌, if◌then◌else◌,
}
use omj_agent.Text.{
  Text, codes, is_nil, is_blank, is_line_end, is_lower, is_upper, is_digit, has_any, all_of,
  has_prefix, trim_prefix, text_eq, size,
}
use omj_agent.Text.Trim.{trim_right, trim_space}
use omj_agent.Text.Split.{cut, lines}
use omj_agent.Text.Quote.{quote}
use omj_agent.Discovery.Entries.{
  Entry, kind_cron, empty_entry, Collection, SourceError, add, unreadable_source, runs_agent,
}
use omj_agent.Discovery.Names.{is_cron_d_name, is_user_name}
use omj_agent.Discovery.Schedule.{cron_schedule, cut_field, error_text}

pub data CrontabFormat : Type 0 where
  system_format user_format : CrontabFormat

-- `value[0]` is a quote and the last byte is the same.
abbrev drop_closing : ℕ → Text → Option Text
drop_closing q [] = none
drop_closing q (c ∷ []) = if c == q then some [] else none
drop_closing q (c ∷ d ∷ s) = elim (drop_closing q (d ∷ s)) [
  | none ↦ none
  | some inner ↦ some (c ∷ inner)
]

unfoldable pub unquote_cron_value : Text → Text
unquote_cron_value [] = []
unquote_cron_value (c ∷ s) =
    if c == b'"' || c == b'\''
    then (elim (drop_closing c s) [ none ↦ c ∷ s | some inner ↦ inner ])
    else c ∷ s

abbrev pub is_letter : ℕ → Bool
is_letter c = c == b'_' || is_upper c || is_lower c

-- The loop over the runes of a name: a digit may not come first.
abbrev pub is_variable : Text → Bool
is_variable [] = true
is_variable (c ∷ s) = is_letter c && all_of (λ d. is_letter d || is_digit d) s

unfoldable pub environment_assignment : Text → Option (Text × Text)
environment_assignment text = elim (cut b'=' text) [
  | none ↦ none
  | some (before, after) ↦
      let name = trim_space before in
      if is_nil name || has_any is_blank name
      then none
      else if is_variable name
      then some (name, unquote_cron_value (trim_space after))
      else none
]

-- The loop of `cronCommand`, before the trimming.
abbrev pub unescape : Text → Text
unescape [] = []
unescape (c ∷ []) = if c == b'%' then [] else c ∷ []
unescape (c ∷ d ∷ s) =
    let skipped = unescape s in
    let next = unescape (d ∷ s) in
    if c == b'\\' && d == b'%' then b'%' ∷ skipped else if c == b'%' then [] else c ∷ next

unfoldable pub cron_command : Text → Text
cron_command text = trim_right is_blank (unescape text)

pub record CronParser : Type 0 where
  pub source : Text
  pub format : CrontabFormat
  pub user : Text
  pub agent_path : Text
  pub timezone : Text

abbrev pub no_command_note : Text
no_command_note = codes "the line has a schedule but no command"

abbrev pub refused : Entry → Text → Entry
refused e why = record e { unparseable = true; note = why }

-- `parse`, from the command on.
unfoldable pub with_command : CronParser → Text → Entry → Entry
with_command p rest e =
    let command = cron_command rest in
    if is_nil command
    then refused (record e { command = command }) no_command_note
    else record e { command = command; is_agent = runs_agent command [] p.agent_path }

module _ (is_print : ℕ → Bool) where
  unfoldable pub bad_user_note : Text → Text
  bad_user_note user =
      quote is_print user
      ++ codes
          " is not a user name, and this file names the user between the schedule and the command"

  -- `parse`, from the user on.
  unfoldable pub with_user : CronParser → Text → Entry → Entry
  with_user p rest e = elim p.format [
    | user_format ↦ with_command p rest e
    | system_format ↦
        let (user, rest') = cut_field rest in
        if not (is_user_name user)
        then refused e (bad_user_note user)
        else with_command p rest' (record e { user = user })
  ]

  -- `parse`, where the line is no assignment.
  unfoldable pub parse_entry : CronParser → Text → Text → Entry
  parse_entry p raw text =
      let e = record empty_entry {
        source = p.source;
        raw = raw;
        schedule_kind = kind_cron;
        timezone = p.timezone;
        user = p.user;
      } in
      elim (cron_schedule (trim_prefix (codes "-") text)) [
        | inl err ↦ refused e (error_text is_print err)
        | inr (schedule, rest) ↦ with_user p rest (record e { schedule = schedule })
      ]

  -- The entry of a line, if it has one, and the parser for the lines below it.
  unfoldable pub parse : CronParser → Text → Option Entry × CronParser
  parse p raw =
      let text = trim_space raw in
      if is_nil text || has_prefix (codes "#") text
      then (none, p)
      else elim (environment_assignment text) [
        | some (name, value) ↦ (
          none,
          if text_eq name (codes "CRON_TZ") || text_eq name (codes "TZ")
              then record p { timezone = value }
              else p,
        )
        | none ↦ (some (parse_entry p raw text), p)
      ]

  abbrev pub read_lines : CronParser → List Text → Collection → Collection
  read_lines p [] c = c
  read_lines p (line ∷ more) c =
      let (entry, p') = parse p (trim_right is_line_end line) in
      read_lines p' more (elim entry [ none ↦ c | some e ↦ add e c ])
