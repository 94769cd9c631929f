-- ===== src/Discovery/Units/Whole.antt =====
-- Each entry that a collection gets, from every source.
use omj_agent.Base.{
  ℕ, ◌≡◌, refl, inl, inr, Bool, true, not, ◌&&◌, Option, none, some, List, [], ◌∷◌, ◌++◌,
  if◌then◌else◌, arith, ⊎-cases, if-intro,
}
use omj_agent.Text.{Text, is_nil, is_line_end}
use omj_agent.Text.Trim.{trim_right}
use omj_agent.Text.Split.{lines}
use omj_agent.Discovery.Entries.{Entry, Collection, SourceError, add, unreadable_source}
use omj_agent.Discovery.Names.{is_cron_d_name, is_user_name}
use omj_agent.Discovery.Crontab.{
  CronParser, CrontabFormat, parse, read_lines, user_format, system_format,
}
use omj_agent.Discovery.Crontab.Notes.{IsReported, parse-IsReported}
use omj_agent.Discovery.Sources.{
  Files, crontab_source_prefix, read_crontab, read_directory, read_system_crontab, read_cron_files,
  read_cron_directory, read_spool_files, read_user_crontabs,
}

-- An entry has a schedule and a command, or it is unparseable and its note says why.
unfoldable pub is_sound : Entry → Bool
is_sound e =
    if e.unparseable then not (is_nil e.note) else not (is_nil e.schedule) && not (is_nil e.command)

reported_sound : (p : CronParser) (raw : Text) (e : Entry) → IsReported p raw e → is_sound e ≡ true
unfolding is_sound
reported_sound p raw e r = ground (arith, r.explained, r.usable)

-- What the three ways that a collection changes keep, reading a machine keeps.
module _ (P : Collection → Type 0)
    (add_ok : (e : Entry) (c : Collection) → is_sound e ≡ true → P c → P (add e c))
    (unreadable_ok : (source : Text) (err : SourceError) (c : Collection)
      → P c
      → P (unreadable_source source err c))
    (is_print : ℕ → Bool) where
  add_entry :
      (o : Option Entry) (c : Collection)
      → ((e : Entry) → o ≡ some e → is_sound e ≡ true)
      → P c
      → P (elim o [ none ↦ c | some e ↦ add e c ])
  add_entry none c s h = h
  add_entry (some e) c s h = add_ok e c (s e refl) h

  read_lines-rule :
      (p : CronParser) (ls : List Text) (c : Collection) → P c → P (read_lines is_print p ls c)
  read_lines-rule p [] c h = h
  read_lines-rule p (line ∷ more) c h =
      let raw = trim_right is_line_end line in
      read_lines-rule (parse is_print p raw).1 more _ (
        add_entry (parse is_print p raw).0 c
          (λ e eq. reported_sound p raw e (parse-IsReported is_print p raw e eq)) h)

  module _ (fs : Files) (agent_path : Text) where
    read_crontab-rule :
        (source path : Text) (format : CrontabFormat) (user : Text) (c : Collection)
        → P c
        → P (read_crontab is_print fs agent_path source path format user c)
    unfolding read_crontab
    read_crontab-rule source path format user c h = elim (⊎-cases (fs.read_file path)) [
      | inl (err, e) ↦ rw (e, read_crontab) (unreadable_ok source err c h)
      | inr (content, e) ↦ rw (e, read_crontab) (read_lines-rule _ (lines content) c h)
    ]

    read_directory-rule :
        (source dir : Text) (c : Collection)
        → P c
        → P (read_directory is_print fs agent_path source dir c).1
    unfolding read_directory
    read_directory-rule source dir c h = elim (⊎-cases (fs.read_dir dir)) [
      | inl (err, e) ↦ rw (e, read_directory) (unreadable_ok source err c h)
      | inr (listing, e) ↦ rw (e, read_directory) h
    ]

    pub read_system_crontab-rule :
        (path : Text) (c : Collection) → P c → P (read_system_crontab is_print fs agent_path path c)
    unfolding read_system_crontab
    read_system_crontab-rule path c h =
        if-intro P (is_nil path) (λ t. h) (λ f. read_crontab-rule _ path system_format [] c h)

    read_cron_files-rule :
        (dir : Text) (names : List Text) (c : Collection)
        → P c
        → P (read_cron_files is_print fs agent_path dir names c)
    read_cron_files-rule dir [] c h = h
    read_cron_files-rule dir (name ∷ names) c h = read_cron_files-rule dir names _ (
        if-intro P (not (is_cron_d_name name)) (λ t. h)
          (λ f. read_crontab-rule _ (fs.join_path dir name) system_format [] c h))

    pub read_cron_directory-rule :
        (dir : Text) (c : Collection) → P c → P (read_cron_directory is_print fs agent_path dir c)
    unfolding read_cron_directory
    read_cron_directory-rule dir c h =
        if-intro P (is_nil dir) (λ t. h)
          (λ f.
            let source = crontab_source_prefix ++ dir in
            read_cron_files-rule dir (read_directory is_print fs agent_path source dir c).0 _
              (read_directory-rule source dir c h))

    read_spool_files-rule :
        (dir : Text) (users : List Text) (c : Collection)
        → P c
        → P (read_spool_files is_print fs agent_path dir users c)
    read_spool_files-rule dir [] c h = h
    read_spool_files-rule dir (user ∷ users) c h = read_spool_files-rule dir users _ (
        if-intro P (not (is_user_name user)) (λ t. h)
          (λ f. read_crontab-rule _ (fs.join_path dir user) user_format user c h))

    pub read_user_crontabs-rule :
        (dirs : List Text) (c : Collection)
        → P c
        → P (read_user_crontabs is_print fs agent_path dirs c)
    read_user_crontabs-rule [] c h = h
    read_user_crontabs-rule (dir ∷ dirs) c h =
        let source = crontab_source_prefix ++ dir in
        read_user_crontabs-rule dirs _ (
          read_spool_files-rule dir (read_directory is_print fs agent_path source dir c).0 _
            (read_directory-rule source dir c h))
