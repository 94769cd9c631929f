-- ===== src/Discovery/Crontab/Notes.antt =====
-- What the entry of a line holds.
use omj_agent.Base.{
  ℕ, ◌≡◌, refl, sym, subst, ◌⊎◌, inl, inr, Bool, true, false, not, ◌&&◌, ◌||◌, some, List, [], ◌∷◌,
  if◌then◌else◌, arith, Bool-cases, if-intro, Option-cases, ⊎-cases,
}
use omj_agent.Text.{Text, codes, is_nil, has_prefix, text_eq, text_eq_iff, trim_prefix}
use omj_agent.Text.Trim.{trim_space}
use omj_agent.Text.Split.{join}
use omj_agent.Text.Quote.{quote}
use omj_agent.Discovery.Entries.{Entry, kind_cron, empty_entry}
use omj_agent.Discovery.Names.{is_user_name}
use omj_agent.Discovery.Schedule.{
  minute_field, later_fields, ScheduleError, unknown_nickname, too_few_fields, bad_step,
  empty_value, not_a_value, out_of_range, error_text, cut_field, cron_schedule,
}
use omj_agent.Discovery.Schedule.Fields.{known-nil, read_fields-cons, cron_schedule-cases}
use omj_agent.Discovery.Crontab.{
  CrontabFormat, system_format, user_format, CronParser, refused, bad_user_note, no_command_note,
  cron_command, with_command, with_user, parse_entry, parse, environment_assignment,
}

-- A user of the machine's own crontab stands in the line; a user's crontab names the user once for all.
abbrev pub has_user : CronParser → Text → Bool
has_user p user = elim p.format [
  | system_format ↦ is_user_name user
  | user_format ↦ text_eq user p.user
]

-- An entry says where it was read, keeps the line, and either explains why it could not be read or has
-- a schedule, a command and a user.
pub record IsReported (p : CronParser) (raw : Text) (e : Entry) : Type 0 where
  pub from : e.source ≡ p.source
  pub kept : e.raw ≡ raw
  pub kind : e.schedule_kind ≡ kind_cron
  pub zoned : e.timezone ≡ p.timezone
  pub explained : is_nil e.note ≡ not e.unparseable
  pub usable :
      (e.unparseable || (not (is_nil e.schedule) && not (is_nil e.command) && has_user p e.user))
      ≡ true

error_text-nil :
    (is_print : ℕ → Bool) (err : ScheduleError) → is_nil (error_text is_print err) ≡ false
unfolding error_text quote
error_text-nil is_print (unknown_nickname nickname) = refl
error_text-nil is_print (too_few_fields i) = refl
error_text-nil is_print (bad_step f item step) = refl
error_text-nil is_print (empty_value f item) = refl
error_text-nil is_print (not_a_value f item) = refl
error_text-nil is_print (out_of_range f item) = refl

bad_user_note-nil :
    (is_print : ℕ → Bool) (user : Text) → is_nil (bad_user_note is_print user) ≡ false
unfolding bad_user_note quote
bad_user_note-nil is_print user = refl

pub join-nil :
    (sep v : Text) (vs : List Text) → is_nil v ≡ false → is_nil (join sep (v ∷ vs)) ≡ false
join-nil sep v [] h = h
join-nil sep [] (u ∷ vs) h = cc
join-nil sep (c ∷ v) (u ∷ vs) h = refl

cron_schedule-nil :
    (text schedule rest : Text)
    → cron_schedule text ≡ inr (schedule, rest)
    → is_nil schedule ≡ false
cron_schedule-nil text schedule rest h = elim (cron_schedule-cases text schedule rest h) [
  | inl n ↦ rw n.nickname (known-nil (cut_field text).0 n.known)
  | inr five ↦
      let r = read_fields-cons 0 minute_field later_fields text five.values rest five.read in
      rw (five.joined, r.first) (join-nil (codes " ") (cut_field text).0 r.others r.filled)
]

format-cases : (f : CrontabFormat) → (f ≡ system_format) ⊎ (f ≡ user_format)
format-cases system_format = inl refl
format-cases user_format = inr refl

module _ (is_print : ℕ → Bool) (p : CronParser) (raw : Text) where
  -- What holds of the entry before its command is read.
  record IsStarted (e : Entry) : Type 0 where
    from : e.source ≡ p.source
    kept : e.raw ≡ raw
    kind : e.schedule_kind ≡ kind_cron
    zoned : e.timezone ≡ p.timezone
    explained : e.note ≡ []
    parseable : e.unparseable ≡ false

  refused-IsReported :
      (e : Entry) (why : Text) → is_nil why ≡ false → IsStarted e → IsReported p raw (refused e why)
  refused-IsReported e why h s = record {
    from = s.from;
    kept = s.kept;
    kind = s.kind;
    zoned = s.zoned;
    explained = h;
    usable = refl;
  }

  with_command-IsReported :
      (rest : Text) (e : Entry)
      → IsStarted e
      → is_nil e.schedule ≡ false
      → has_user p e.user ≡ true
      → IsReported p raw (with_command p rest e)
  unfolding with_command
  with_command-IsReported rest e s h u =
      let command = cron_command rest in
      if-intro (IsReported p raw) (is_nil command)
        (λ t.
          refused-IsReported (record e { command = command }) no_command_note refl
            record {
              from = s.from;
              kept = s.kept;
              kind = s.kind;
              zoned = s.zoned;
              explained = s.explained;
              parseable = s.parseable;
            })
        (λ f. record {
          from = s.from;
          kept = s.kept;
          kind = s.kind;
          zoned = s.zoned;
          explained = ground (arith, s.explained, s.parseable);
          usable = ground (arith, f, h, u, s.parseable);
        })

  with_user_own :
      (rest : Text) (e : Entry)
      → p.format ≡ user_format
      → with_user is_print p rest e ≡ with_command p rest e
  unfolding with_user
  with_user_own rest e h = ground (arith, h)

  with_user_system :
      (rest : Text) (e : Entry)
      → p.format ≡ system_format
      → with_user is_print p rest e ≡ (
          if not (is_user_name (cut_field rest).0)
          then refused e (bad_user_note is_print (cut_field rest).0)
          else with_command p (cut_field rest).1 (record e { user = (cut_field rest).0 }))
  unfolding with_user
  with_user_system rest e h = ground (arith, h)

  with_user-IsReported :
      (rest : Text) (e : Entry)
      → IsStarted e
      → is_nil e.schedule ≡ false
      → e.user ≡ p.user
      → IsReported p raw (with_user is_print p rest e)
  unfolding with_user
  with_user-IsReported rest e s h u = elim (format-cases p.format) [
    | inr own ↦
        subst (IsReported p raw) (sym (with_user_own rest e own))
          (with_command-IsReported rest e s h (ground (arith, own, u, text_eq_iff e.user p.user)))
    | inl system ↦
        let (user, rest') = cut_field rest in
        subst (IsReported p raw) (sym (with_user_system rest e system)) (
          if-intro (IsReported p raw) (not (is_user_name user))
            (λ t.
              refused-IsReported e (bad_user_note is_print user) (bad_user_note-nil is_print user)
                s)
            (λ f.
              with_command-IsReported rest' (record e { user = user })
                record {
                  from = s.from;
                  kept = s.kept;
                  kind = s.kind;
                  zoned = s.zoned;
                  explained = s.explained;
                  parseable = s.parseable;
                }
                h (ground (arith, system, f))))
  ]

  pub parse_entry-IsReported : (text : Text) → IsReported p raw (parse_entry is_print p raw text)
  unfolding parse_entry empty_entry
  parse_entry-IsReported text =
      let start : Entry = record empty_entry {
        source = p.source;
        raw = raw;
        schedule_kind = kind_cron;
        timezone = p.timezone;
        user = p.user;
      } in
      elim (⊎-cases (cron_schedule (trim_prefix (codes "-") text))) [
        | inl (err, e) ↦
            rw (e, parse_entry)
              (refused-IsReported start (error_text is_print err) (error_text-nil is_print err)
                record {
                  from = refl;
                  kept = refl;
                  kind = refl;
                  zoned = refl;
                  explained = refl;
                  parseable = refl;
                })
        | inr ((schedule, rest), e) ↦
            rw (e, parse_entry)
              (with_user-IsReported rest (record start { schedule = schedule })
                record {
                  from = refl;
                  kept = refl;
                  kind = refl;
                  zoned = refl;
                  explained = refl;
                  parseable = refl;
                }
                (cron_schedule-nil (trim_prefix (codes "-") text) schedule rest e) refl)
      ]

  -- If a line has an entry, the entry says where it was read and keeps the line as it was. It has a note
  -- exactly if it could not be read; else it has a schedule, a command and a user.
  pub parse-IsReported : (e : Entry) → (parse is_print p raw).0 ≡ some e → IsReported p raw e
  unfolding parse
  parse-IsReported e h =
      let text = trim_space raw in
      elim (Bool-cases (is_nil text || has_prefix (codes "#") text)) [
        | inl t ↦ absurd (ground (arith, h, t))
        | inr f ↦ elim (Option-cases (environment_assignment text)) [
          | inr ((name, value), a) ↦ absurd (ground (arith, h, f, a))
          | inl a ↦
              subst (IsReported p raw) {x = parse_entry is_print p raw text}
                (ground (arith, h, f, a)) (parse_entry-IsReported text)
        ]
      ]
