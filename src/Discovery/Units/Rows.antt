-- ===== src/Discovery/Units/Rows.antt =====
-- The entries of timers.
use omj_agent.Base.{
  ℕ, suc, ◌≡◌, refl, inl, inr, Bool, true, false, not, ◌||◌, Option, none, some, List, [], ◌∷◌,
  ◌++◌, ◌==◌, length, if◌then◌else◌, arith, Option-cases, ⊎-cases, if-intro, All, All-append,
}
use omj_agent.Text.{Text, codes, is_nil}
use omj_agent.Text.Split.{lines, join}
use omj_agent.Text.Trim.{trim_space}
use omj_agent.Discovery.Entries.{
  Entry, empty_entry, Collection, SourceError, add, full, unreadable_source,
}
use omj_agent.Discovery.Crontab.Notes.{join-nil}
use omj_agent.Discovery.Timers.{
  Properties, values_of, first, TimerSchedule, group_schedule, calendar_groups, monotonic_groups,
  all_groups, timer_schedules, exec_argv, exec_lines, exec_start, timer_row, is_list_timers_footer,
  join_notes,
}
use omj_agent.Discovery.Units.{
  Systemctl, Reading, once, update, bad_row_note, no_schedule_note, prefixed, command_note,
  scheduled, add_each, timer_entries, show, unit_command, timer_entry, read_timer, read_row,
  read_rows, read_timers,
}
use omj_agent.Discovery.Units.Whole.{is_sound}

abbrev HasExpression : TimerSchedule → Type 0
HasExpression s = is_nil s.expression ≡ false

calendar_groups-HasExpression : (gs : List Text) → All HasExpression (calendar_groups gs)
calendar_groups-HasExpression [] = tt
calendar_groups-HasExpression (g ∷ gs) =
    if-intro (All HasExpression) (is_nil (group_schedule g).1)
      (λ t. calendar_groups-HasExpression gs) (λ f. (f, calendar_groups-HasExpression gs))

named-nil : (name e : Text) → is_nil (name ++ codes "=" ++ e) ≡ false
named-nil [] e = refl
named-nil (c ∷ name) e = refl

monotonic_groups-HasExpression : (gs : List Text) → All HasExpression (monotonic_groups gs)
monotonic_groups-HasExpression [] = tt
monotonic_groups-HasExpression (g ∷ gs) =
    if-intro (All HasExpression) (is_nil (group_schedule g).1)
      (λ t. monotonic_groups-HasExpression gs)
      (λ f.
        (named-nil (group_schedule g).0 (group_schedule g).1, monotonic_groups-HasExpression gs))

timer_schedules-HasExpression : (ps : Properties) → All HasExpression (timer_schedules ps)
unfolding timer_schedules
timer_schedules-HasExpression ps =
    All-append HasExpression _ _
      (calendar_groups-HasExpression (all_groups (values_of (codes "TimersCalendar") ps)))
      (monotonic_groups-HasExpression (all_groups (values_of (codes "TimersMonotonic") ps)))

-- A timer's entry before its schedules are set.
abbrev is_explained : Entry → Bool
is_explained e = if e.unparseable then not (is_nil e.note) else not (is_nil e.command)

abbrev Sound : Entry → Type 0
Sound e = is_sound e ≡ true

scheduled-Sound :
    (e : Entry) (ss : List TimerSchedule)
    → is_explained e ≡ true
    → All HasExpression ss
    → All Sound (scheduled e ss)
unfolding is_sound
scheduled-Sound e [] x h = tt
scheduled-Sound e (s ∷ ss) x h = (ground (arith, x, h.0), scheduled-Sound e ss x h.1)

join_notes-nil : (note : Text) → is_nil (join_notes (note ∷ no_schedule_note ∷ [])) ≡ false
unfolding join_notes
join_notes-nil [] = refl
join_notes-nil (c ∷ note) = refl

timer_entries-Sound :
    (e : Entry) (ss : List TimerSchedule)
    → is_explained e ≡ true
    → All HasExpression ss
    → All Sound (timer_entries e ss)
unfolding timer_entries is_sound
timer_entries-Sound e [] x h = (ground (arith, join_notes-nil e.note), tt)
timer_entries-Sound e (s ∷ ss) x h = scheduled-Sound e (s ∷ ss) x h

exec_lines-nil :
    (gs : List Text) → is_nil (join (codes " ; ") (exec_lines gs)) ≡ (length (exec_lines gs) == 0)
exec_lines-nil [] = refl
exec_lines-nil (g ∷ gs) =
    if-intro (λ ls. is_nil (join (codes " ; ") ls) ≡ (length ls == 0)) (is_nil (exec_argv g))
      (λ t. exec_lines-nil gs)
      (λ f. ground (arith, join-nil (codes " ; ") (exec_argv g) (exec_lines gs) f))

exec_start-nil : (ps : Properties) → is_nil (exec_start ps).0 ≡ ((exec_start ps).1 == 0)
unfolding exec_start
exec_start-nil ps = exec_lines-nil (all_groups (values_of (codes "ExecStart") ps))

command_note-nil : (unit : Text) (n : ℕ) → (n == 0) ≡ true → is_nil (command_note unit n) ≡ false
unfolding command_note
command_note-nil unit n h = rw h refl

-- A command, or a note.
abbrev is_command : Text × Text × Text → Bool
is_command x = not (is_nil x.0) || not (is_nil x.2)

abbrev timer_properties : List Text
timer_properties = codes "Unit" ∷ codes "TimersCalendar" ∷ codes "TimersMonotonic" ∷ []

module _ (P : Collection → Type 0)
    (add_ok : (e : Entry) (c : Collection) → is_sound e ≡ true → P c → P (add e c))
    (unreadable_ok : (source : Text) (err : SourceError) (c : Collection)
      → P c
      → P (unreadable_source source err c))
    (omit_ok : (c : Collection) → full c ≡ true → P c → P (record c { omitted = suc c.omitted }))
    (is_print : ℕ → Bool) (ctl : Systemctl) (stopped : ℕ → Bool) (agent_path : Text) (N : Type 0)
    (ended : (n : ℕ) → stopped n ≡ true → N) where
  -- What is read, unless the context has ended.
  abbrev pub Holds : Option Reading → Type 0
  Holds none = N
  Holds (some r) = P r.collection

  abbrev HoldsCommand : Option ((Text × Text × Text) × Reading) → Type 0
  HoldsCommand none = N
  HoldsCommand (some (x, r)) = (is_command x ≡ true) × P r.collection

  add_each-rule : (es : List Entry) (c : Collection) → All Sound es → P c → P (add_each es c)
  add_each-rule [] c a h = h
  add_each-rule (e ∷ es) c a h = add_each-rule es (add e c) a.1 (add_ok e c a.0 h)

  unit_command-rule :
      (unit : Text) (r : Reading)
      → P r.collection
      → HoldsCommand (unit_command is_print ctl stopped agent_path unit r)
  unfolding unit_command update once
  unit_command-rule unit r h =
      if-intro HoldsCommand (is_nil unit) (λ t. (refl, h))
        (λ f.
          elim (⊎-cases
            (show is_print ctl stopped agent_path unit (codes "ExecStart" ∷ codes "User" ∷ []))) [
              | inl (err, e) ↦ rw e (
                  if-intro HoldsCommand (stopped r.asked) (λ t. ended r.asked t)
                    (λ g. (refl, unreadable_ok _ err r.collection h)))
              | inr (ps, e) ↦
                  rw e
                    (ground (arith, exec_start-nil ps, command_note-nil unit (exec_start ps).1), h)
            ])

  then_entries :
      (o : Option ((Text × Text × Text) × Reading)) (f : Text × Text × Text → List Entry)
      → ((x : Text × Text × Text) → is_command x ≡ true → All Sound (f x))
      → HoldsCommand o
      → Holds (elim o [ none ↦ none | some (x, r) ↦ some (update (add_each (f x)) r) ])
  unfolding update
  then_entries none f s h = h
  then_entries (some (x, r)) f s h = add_each-rule (f x) r.collection (s x h.0) h.1

  timer_entry-Sound :
      (timer row unit : Text) (ps : Properties) (x : Text × Text × Text)
      → is_command x ≡ true
      → All Sound
          (timer_entries (timer_entry agent_path timer row unit x.0 x.1 x.2) (timer_schedules ps))
  unfolding empty_entry
  timer_entry-Sound timer row unit ps x h =
      timer_entries-Sound (timer_entry agent_path timer row unit x.0 x.1 x.2) (timer_schedules ps)
        (ground (arith, h)) (timer_schedules-HasExpression ps)

  read_timer-rule :
      (timer activates row : Text) (r : Reading)
      → P r.collection
      → Holds (read_timer is_print ctl stopped agent_path timer activates row r)
  unfolding read_timer once update
  read_timer-rule timer activates row r h =
      elim (⊎-cases (show is_print ctl stopped agent_path timer timer_properties)) [
        | inl (err, e) ↦
            rw (e, read_timer)
              (if-intro Holds (stopped r.asked) (λ t. ended r.asked t)
                (λ g. unreadable_ok _ err r.collection h))
        | inr (ps, e) ↦
            let named = first (values_of (codes "Unit") ps) in
            let unit = if is_nil named then activates else named in
            rw (e, read_timer)
              (then_entries (unit_command is_print ctl stopped agent_path unit r)
                (λ x.
                  timer_entries (timer_entry agent_path timer row unit x.0 x.1 x.2)
                    (timer_schedules ps))
                (timer_entry-Sound timer row unit ps) (unit_command-rule unit r h))
      ]

  bad_row-Sound :
      (row : Text)
      → is_sound (record empty_entry {
        source = codes "systemd";
        raw = row;
        unparseable = true;
        note = bad_row_note;
      })
        ≡ true
  unfolding is_sound empty_entry
  bad_row-Sound row = refl

  read_row-rule :
      (row : Text) (r : Reading)
      → P r.collection
      → Holds (read_row is_print ctl stopped agent_path row r)
  unfolding read_row update
  read_row-rule row r h = elim (Option-cases (timer_row row)) [
    | inl e ↦ rw (e, read_row) (add_ok _ r.collection (bad_row-Sound row) h)
    | inr ((timer, activates), e) ↦
        rw (e, read_row)
          (if-intro Holds (full r.collection) (λ t. omit_ok r.collection t h)
            (λ f. read_timer-rule timer activates row r h))
  ]

  then_rows :
      (o : Option Reading) (f : Reading → Option Reading)
      → ((r : Reading) → P r.collection → Holds (f r))
      → Holds o
      → Holds (elim o [ none ↦ none | some r ↦ f r ])
  then_rows none f s h = h
  then_rows (some r) f s h = s r h

  read_rows-rule :
      (ls : List Text) (r : Reading)
      → P r.collection
      → Holds (read_rows is_print ctl stopped agent_path ls r)
  unfolding once
  read_rows-rule [] r h = h
  read_rows-rule (line ∷ more) r h =
      let row = trim_space line in
      if-intro Holds (stopped r.asked) (λ t. ended r.asked t)
        (λ f.
          then_rows
            (if is_nil row || is_list_timers_footer row
              then some (once r)
              else read_row is_print ctl stopped agent_path row (once r))
            (λ r'. read_rows is_print ctl stopped agent_path more r') (read_rows-rule more)
            (if-intro Holds (is_nil row || is_list_timers_footer row) (λ t. h)
              (λ g. read_row-rule row (once r) h)))

  pub read_timers-rule :
      (r : Reading) → P r.collection → Holds (read_timers is_print ctl stopped agent_path r)
  unfolding read_timers update once
  read_timers-rule r h =
      if-intro Holds (not ctl.available) (λ t. h)
        (λ f. elim (⊎-cases ctl.list_timers) [
          | inl (err, e) ↦ rw e (
              if-intro Holds (stopped r.asked) (λ t. ended r.asked t)
                (λ g.
                  unreadable_ok (codes "systemd") (prefixed (codes "systemctl list-timers: ") err)
                    r.collection h))
          | inr (listing, e) ↦ rw e (read_rows-rule (lines listing) r h)
        ])
