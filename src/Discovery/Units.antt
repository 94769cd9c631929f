-- ===== src/Discovery/Units.antt =====
-- internal/discovery/timers.go: the timers of a machine and what they run, and `Collect`. systemctl and
-- the context are parameters: what a call of the program answers, and whether the context is ended the
-- n-th time that the code asks.
pub mod Whole
pub mod Rows
pub mod Report
use omj_agent.Base.{
  ℕ, suc, ◌⊎◌, inl, inr, Bool, true, false, not, ◌||◌, Option, none, some, List, [], ◌∷◌, ◌++◌, ltb,
  ◌==◌, if◌then◌else◌,
}
use omj_agent.Text.{Text, codes, is_nil}
use omj_agent.Text.Trim.{trim_space}
use omj_agent.Text.Split.{lines}
use omj_agent.Text.Decimal.{format_ℕ}
use omj_agent.Text.Quote.{quote}
use omj_agent.Discovery.Entries.{
  Entry, empty_entry, Paths, Limits, Unreadable, Collection, new_collection, SourceError, add, full,
  unreadable_source, runs_agent,
}
use omj_agent.Discovery.Names.{is_unit_name}
use omj_agent.Discovery.Sources.{
  Files, read_system_crontab, read_cron_directory, read_user_crontabs,
}
use omj_agent.Discovery.Timers.{
  Properties, values_of, show_properties, first, TimerSchedule, timer_schedules, exec_start,
  service_user, timer_row, is_list_timers_footer, join_notes,
}

pub record Systemctl : Type 0 where
  pub available : Bool
  pub list_timers : SourceError ⊎ Text
  pub show_unit : Text → List Text → SourceError ⊎ Text

abbrev pub timer_source_prefix : Text
timer_source_prefix = codes "systemd:"

-- `asked` counts the calls of `ctx.Err`.
pub record Reading : Type 0 where
  pub collection : Collection
  pub asked : ℕ

unfoldable pub once : Reading → Reading
once r = record r { asked = suc r.asked }

unfoldable pub update : (Collection → Collection) → Reading → Reading
update f r = record r { collection = f r.collection }

abbrev pub bad_row_note : Text
bad_row_note = codes "systemctl list-timers printed a row without a .timer unit in it"

abbrev pub no_schedule_note : Text
no_schedule_note =
    codes "systemd reports neither a calendar nor a monotonic schedule for this timer"

abbrev pub no_unit_note : Text
no_unit_note = codes "this timer triggers no unit, so it has no command"

-- `fmt.Errorf` of a text before an error.
abbrev pub prefixed : Text → SourceError → SourceError
prefixed before err = record err { reason = before ++ err.reason }

unfoldable pub command_note : Text → ℕ → Text
command_note unit count =
    if count == 0
    then codes "systemd reports no command for " ++ unit
    else if ltb 1 count
    then unit
      ++ codes " runs "
      ++ format_ℕ count
      ++ codes " commands in order, joined here with a semicolon"
    else []

-- One entry for each schedule of a timer.
abbrev pub scheduled : Entry → List TimerSchedule → List Entry
scheduled e [] = []
scheduled e (s ∷ ss) =
    record e { schedule = s.expression; schedule_kind = s.kind; timezone = s.timezone }
    ∷ scheduled e ss

abbrev pub add_each : List Entry → Collection → Collection
add_each [] c = c
add_each (e ∷ es) c = add_each es (add e c)

-- `readTimer`, once the command is known.
unfoldable pub timer_entries : Entry → List TimerSchedule → List Entry
timer_entries entry schedules = elim schedules [
  | [] ↦
      record entry { unparseable = true; note = join_notes (entry.note ∷ no_schedule_note ∷ []) }
      ∷ []
  | s ∷ ss ↦ scheduled entry (s ∷ ss)
]

-- The entry of a timer, before its schedules.
abbrev pub timer_entry : Text → Text → Text → Text → Text → Text → Text → Entry
timer_entry agent_path timer row unit command user note = record empty_entry {
  source = timer_source_prefix ++ timer;
  raw = row;
  unit = unit;
  command = command;
  user = user;
  note = note;
  is_agent = runs_agent command unit agent_path;
  unparseable = is_nil command;
}

module _ (is_print : ℕ → Bool) (ctl : Systemctl) (stopped : ℕ → Bool) (agent_path : Text) where
  unfoldable pub show : Text → List Text → SourceError ⊎ Properties
  show unit properties =
      if not (is_unit_name unit)
      then inl
          record { absent = false; reason = quote is_print unit ++ codes " is not a unit name" }
      else elim (ctl.show_unit unit properties) [
        | inl err ↦ inl err
        | inr out ↦ inr (show_properties out)
      ]

  -- The command, the user and the note; none where the context has ended.
  unfoldable pub unit_command : Text → Reading → Option ((Text × Text × Text) × Reading)
  unit_command unit r =
      if is_nil unit
      then some (([], [], no_unit_note), r)
      else elim (show unit (codes "ExecStart" ∷ codes "User" ∷ [])) [
        | inl err ↦
            if stopped r.asked
            then none
            else some (
              (
                [],
                [],
                codes "systemctl could not be asked what " ++ unit ++ codes " runs: " ++ err.reason,
              ),
              update (unreadable_source (timer_source_prefix ++ unit) err) (once r),
            )
        | inr ps ↦
            let (command, count) = exec_start ps in
            some ((command, service_user ps, command_note unit count), r)
      ]

  unfoldable pub read_timer : Text → Text → Text → Reading → Option Reading
  read_timer timer activates row r =
      elim (show timer (codes "Unit" ∷ codes "TimersCalendar" ∷ codes "TimersMonotonic" ∷ [])) [
        | inl err ↦
            if stopped r.asked
            then none
            else some (update (unreadable_source (timer_source_prefix ++ timer) err) (once r))
        | inr ps ↦
            let named = first (values_of (codes "Unit") ps) in
            let unit = if is_nil named then activates else named in
            elim (unit_command unit r) [
              | none ↦ none
              | some ((command, user, note), r') ↦ some (
                  update
                    (add_each (
                      timer_entries (timer_entry agent_path timer row unit command user note)
                        (timer_schedules ps)))
                    r')
            ]
      ]

  -- A row of the listing that is no footer.
  unfoldable pub read_row : Text → Reading → Option Reading
  read_row row r = elim (timer_row row) [
    | none ↦ some (
        update
          (add (record empty_entry {
            source = codes "systemd";
            raw = row;
            unparseable = true;
            note = bad_row_note;
          }))
          r)
    | some (timer, activates) ↦
        if full r.collection
        then some (update (λ c. record c { omitted = suc c.omitted }) r)
        else read_timer timer activates row r
  ]

  abbrev pub read_rows : List Text → Reading → Option Reading
  read_rows [] r = some r
  read_rows (line ∷ more) r =
      if stopped r.asked
      then none
      else (let row = trim_space line in
          elim (if is_nil row || is_list_timers_footer row
            then some (once r)
            else read_row row (once r)) [ none ↦ none | some r' ↦ read_rows more r' ])

  unfoldable pub read_timers : Reading → Option Reading
  read_timers r = if not ctl.available then some r else elim ctl.list_timers [
    | inl err ↦
        if stopped r.asked
        then none
        else some (
            update
              (unreadable_source (codes "systemd") (prefixed (codes "systemctl list-timers: ") err))
              (once r))
    | inr listing ↦ read_rows (lines listing) r
  ]

  unfoldable pub collect : Files → Paths → Limits → Option Collection
  collect fs paths limits =
      if stopped 0
      then none
      else (let c =
            read_system_crontab is_print fs agent_path paths.system_crontab
              (new_collection limits) in
          let c' = read_cron_directory is_print fs agent_path paths.cron_dir c in
          let c'' = read_user_crontabs is_print fs agent_path paths.spool_dirs c' in
          elim (read_timers record { collection = c''; asked = 1 }) [
            | none ↦ none
            | some r ↦ some r.collection
          ])
