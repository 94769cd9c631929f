-- ===== src/Discovery/Units/Report.antt =====
-- What a discovery reports.
use omj_agent.Base.{
  ℕ, suc, ◌+◌, ◌≤◌, ◌≡◌, refl, subst, ◌⊎◌, inl, inr, Bool, true, ◌||◌, Option, none, some, [], ◌∷◌,
  length, length-append, arith, Option-cases, if-intro, All, All-append, ltb, leb,
}
use omj_agent.Text.{Text}
use omj_agent.Discovery.Entries.{
  Entry, Paths, Limits, Collection, new_collection, SourceError, entry_size, add, unreadable_source,
}
use omj_agent.Discovery.Entries.Budget.{IsWithin, add-IsWithin, new-IsWithin}
use omj_agent.Discovery.Sources.{
  Files, read_system_crontab, read_cron_directory, read_user_crontabs,
}
use omj_agent.Discovery.Units.{Systemctl, Reading, read_timers, collect}
use omj_agent.Discovery.Units.Whole.{
  is_sound, read_system_crontab-rule, read_cron_directory-rule, read_user_crontabs-rule,
}
use omj_agent.Discovery.Units.Rows.{Holds, read_timers-rule}

abbrev Sound : Entry → Type 0
Sound e = is_sound e ≡ true

-- A report within its limits, in which each entry can be scheduled or says why not.
pub record IsReport (l : Limits) (c : Collection) : Type 0 where
  pub limits : c.limits ≡ l
  pub budget : IsWithin c
  pub unreadable_fit : length c.unreadable ≤ l.max_entries
  pub sound : All Sound c.entries

add-IsReport :
    (l : Limits) (e : Entry) (c : Collection)
    → is_sound e ≡ true
    → IsReport l c
    → IsReport l (add e c)
unfolding add
add-IsReport l e c s r = record {
  limits = ground (arith, r.limits);
  budget = add-IsWithin e c r.budget;
  unreadable_fit = ground (arith, r.unreadable_fit);
  sound =
      if-intro (λ (x : Collection). All Sound x.entries) (ltb c.limits.max_bytes (entry_size e))
        (λ t. r.sound)
        (λ f.
          if-intro (λ (x : Collection). All Sound x.entries)
            (c.spent
              || leb c.limits.max_entries (length c.entries)
              || ltb c.limits.max_bytes (c.bytes + entry_size e))
            (λ t. r.sound) (λ g. All-append Sound c.entries (e ∷ []) r.sound (s, tt)));
}

unreadable-IsReport :
    (l : Limits) (source : Text) (err : SourceError) (c : Collection)
    → IsReport l c
    → IsReport l (unreadable_source source err c)
unfolding unreadable_source
unreadable-IsReport l source err c r =
    if-intro (IsReport l) err.absent (λ t. r)
      (λ f.
        if-intro (IsReport l) (leb c.limits.max_entries (length c.unreadable)) (λ t. r)
          (λ g. record {
            limits = r.limits;
            budget = record {
              counted = r.budget.counted;
              bytes_fit = r.budget.bytes_fit;
              entries_fit = r.budget.entries_fit;
            };
            unreadable_fit = ground (
              arith,
              g,
              r.limits,
              length-append c.unreadable (record { source = source; reason = err.reason } ∷ []),
            );
            sound = r.sound;
          }))

omit-IsReport :
    (l : Limits) (c : Collection) → IsReport l c → IsReport l (record c { omitted = suc c.omitted })
omit-IsReport l c r = record {
  limits = r.limits;
  budget = record {
    counted = r.budget.counted;
    bytes_fit = r.budget.bytes_fit;
    entries_fit = r.budget.entries_fit;
  };
  unreadable_fit = r.unreadable_fit;
  sound = r.sound;
}

new-IsReport : (l : Limits) → IsReport l (new_collection l)
unfolding new_collection
new-IsReport l = record {
  limits = refl;
  budget = new-IsWithin l;
  unreadable_fit = omega arith;
  sound = tt;
}

module _ (is_print : ℕ → Bool) (ctl : Systemctl) (stopped : ℕ → Bool) (agent_path : Text)
    (fs : Files) (paths : Paths) (l : Limits) where
  abbrev crontabs : Collection
  crontabs =
      let c = read_system_crontab is_print fs agent_path paths.system_crontab (new_collection l) in
      let c' = read_cron_directory is_print fs agent_path paths.cron_dir c in
      read_user_crontabs is_print fs agent_path paths.spool_dirs c'

  crontabs-IsReport : IsReport l crontabs
  crontabs-IsReport =
      let add_ok = add-IsReport l in
      let unreadable_ok = unreadable-IsReport l in
      read_user_crontabs-rule (IsReport l) add_ok unreadable_ok is_print fs agent_path
        paths.spool_dirs _
        (read_cron_directory-rule (IsReport l) add_ok unreadable_ok is_print fs agent_path
          paths.cron_dir _
          (read_system_crontab-rule (IsReport l) add_ok unreadable_ok is_print fs agent_path
            paths.system_crontab _ (new-IsReport l)))

  abbrev timers : Option Reading
  timers = read_timers is_print ctl stopped agent_path record { collection = crontabs; asked = 1 }

  module _ (N : Type 0) (ended : (n : ℕ) → stopped n ≡ true → N) where
    -- A report, or the end of the context.
    abbrev Reported : Option Collection → Type 0
    Reported none = N
    Reported (some c) = IsReport l c

    of_reading :
        (o : Option Reading)
        → Holds
            (IsReport l)
            (add-IsReport l)
            (unreadable-IsReport l)
            (λ c f. omit-IsReport l c)
            is_print
            ctl
            stopped
            agent_path
            N
            ended
            o
        → Reported (elim o [ none ↦ none | some r ↦ some r.collection ])
    of_reading none h = h
    of_reading (some r) h = h

    collect-Reported : Reported (collect is_print ctl stopped agent_path fs paths l)
    unfolding collect
    collect-Reported =
        if-intro Reported (stopped 0) (λ t. ended 0 t)
          (λ f. of_reading timers (
            read_timers-rule (IsReport l) (add-IsReport l) (unreadable-IsReport l)
              (λ c f. omit-IsReport l c) is_print ctl stopped agent_path N ended _
              crontabs-IsReport))

  -- What a discovery reports, whatever files and timers the machine has, stays within the limits: as
  -- many entries and unreadable sources, and as many bytes of entries; and each entry has a schedule and
  -- a command, or it is marked unparseable and has a note.
  pub collect-IsReport :
      (c : Collection) → collect is_print ctl stopped agent_path fs paths l ≡ some c → IsReport l c
  collect-IsReport c h = subst (Reported Unit (λ n s. tt)) h (collect-Reported Unit (λ n s. tt))

  -- A discovery ends with a report, unless its context ends.
  pub collect_ends :
      ((n : ℕ) × (stopped n ≡ true))
      ⊎ ((c : Collection) × (collect is_print ctl stopped agent_path fs paths l ≡ some c))
  collect_ends = elim (Option-cases (collect is_print ctl stopped agent_path fs paths l)) [
    | inr (c, e) ↦ inr (c, e)
    | inl e ↦
        let ended : (n : ℕ) → stopped n ≡ true → (m : ℕ) × (stopped m ≡ true) = λ n s. (n, s) in
        inl (subst (Reported _ ended) e (collect-Reported _ ended))
  ]
