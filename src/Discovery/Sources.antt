-- ===== src/Discovery/Sources.antt =====
-- internal/discovery/crontab.go: the crontabs of a machine. The file system is a parameter: what reading
-- a file or a directory answers.
use omj_agent.Base.{ℕ, ◌⊎◌, inl, inr, Bool, not, List, [], ◌∷◌, ◌++◌, if◌then◌else◌}
use omj_agent.Text.{Text, codes, is_nil}
use omj_agent.Text.Split.{lines}
use omj_agent.Discovery.Entries.{Collection, SourceError, unreadable_source}
use omj_agent.Discovery.Names.{is_cron_d_name, is_user_name}
use omj_agent.Discovery.Crontab.{CrontabFormat, system_format, user_format, read_lines}

abbrev pub crontab_source_prefix : Text
crontab_source_prefix = codes "crontab:"

-- What reading a file answers; what a directory holds, with whether it is a directory; and
-- `filepath.Join`.
pub record Files : Type 0 where
  pub read_file : Text → SourceError ⊎ Text
  pub read_dir : Text → SourceError ⊎ List (Text × Bool)
  pub join_path : Text → Text → Text

abbrev pub file_names : List (Text × Bool) → List Text
file_names [] = []
file_names ((name, is_dir) ∷ listing) =
    let rest = file_names listing in if is_dir then rest else name ∷ rest

module _ (is_print : ℕ → Bool) (fs : Files) (agent_path : Text) where
  unfoldable pub read_crontab : Text → Text → CrontabFormat → Text → Collection → Collection
  read_crontab source path format user c = elim (fs.read_file path) [
    | inl err ↦ unreadable_source source err c
    | inr content ↦
        read_lines is_print
          (record {
            source = source;
            format = format;
            user = user;
            agent_path = agent_path;
            timezone = [];
          })
          (lines content) c
  ]

  unfoldable pub read_directory : Text → Text → Collection → List Text × Collection
  read_directory source dir c = elim (fs.read_dir dir) [
    | inl err ↦ ([], unreadable_source source err c)
    | inr listing ↦ (file_names listing, c)
  ]

  unfoldable pub read_system_crontab : Text → Collection → Collection
  read_system_crontab path c =
      if is_nil path
      then c
      else read_crontab (crontab_source_prefix ++ path) path system_format [] c

  abbrev pub read_cron_files : Text → List Text → Collection → Collection
  read_cron_files dir [] c = c
  read_cron_files dir (name ∷ names) c =
      let path = fs.join_path dir name in
      read_cron_files dir names (
        if not (is_cron_d_name name)
        then c
        else read_crontab (crontab_source_prefix ++ path) path system_format [] c)

  unfoldable pub read_cron_directory : Text → Collection → Collection
  read_cron_directory dir c =
      if is_nil dir
      then c
      else (let (names, c') = read_directory (crontab_source_prefix ++ dir) dir c in
          read_cron_files dir names c')

  abbrev pub read_spool_files : Text → List Text → Collection → Collection
  read_spool_files dir [] c = c
  read_spool_files dir (user ∷ users) c = read_spool_files dir users (
      if not (is_user_name user)
      then c
      else read_crontab (crontab_source_prefix ++ user) (fs.join_path dir user) user_format user c)

  abbrev pub read_user_crontabs : List Text → Collection → Collection
  read_user_crontabs [] c = c
  read_user_crontabs (dir ∷ dirs) c =
      let (names, c') = read_directory (crontab_source_prefix ++ dir) dir c in
      read_user_crontabs dirs (read_spool_files dir names c')
