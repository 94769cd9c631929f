-- ===== src/State.antt =====
-- internal/state/state.go: the runs that are active and those that finished lately, kept in a
-- file. Times are nanoseconds since the zero time. The file system's answers are arguments:
-- `StateFile` is what stands at the store's path, where a text that decodes is its contents.
-- Encoding and decoding JSON are the library's: what is encoded decodes to itself.
pub mod Pruning
pub mod Recording
pub mod Retention
pub mod Durability
mod Examples
use omj_agent.Base.{
  ℕ, ◌+◌, ◌-◌, String, Bool, true, false, Option, none, some, List, [], ◌∷◌, ◌++◌, ltb, leb,
  if◌then◌else◌, length, drop, delete_func, contains_func, find_func, str_eq, ℤ, is_empty_str,
}

abbrev pub max_recent_runs : ℕ
max_recent_runs = 1000

-- 7 * 24 * time.Hour, in nanoseconds
abbrev pub recent_run_ttl : ℕ
recent_run_ttl = 604800000000000

pub record ActiveRun : Type 0 where
  pub run_id : String
  pub pid : ℕ
  pub pgid : ℕ
  pub started_at : ℕ

pub record RecentRun : Type 0 where
  pub run_id : String
  pub status : String
  pub exit_code : Option ℤ
  pub started_at : Option ℕ
  pub finished_at : ℕ
  pub reason : Option String

pub record Outcome : Type 0 where
  pub status : String
  pub exit_code : Option ℤ
  pub started_at : Option ℕ
  pub reason : Option String

pub record Contents : Type 0 where
  pub machine_id : String
  pub active_runs : List ActiveRun
  pub recent_runs : List RecentRun

abbrev pub empty_contents : Contents
empty_contents = record { machine_id = ""; active_runs = []; recent_runs = [] }

-- What stands at a path.
pub data StateFile : Type 0 where
  missing unreadable corrupt : StateFile
  holds : Contents → StateFile

-- `aside` holds the files that were renamed out of the way, the last one first.
pub record Store : Type 0 where
  pub contents : Contents
  pub file : StateFile
  pub aside : List StateFile

pub data Error : Type 0 where
  read_state encode_state create_state_directory save_state : Error

-- Which of the calls outside the package succeed.
pub record Faults : Type 0 where
  pub renames : Bool
  pub encodes : Bool
  pub makes_dir : Bool
  pub writes : Bool

-- `r.FinishedAt.Before(now - RecentRunTTL)`, with the subtraction on the other side.
abbrev pub is_stale : ℕ → RecentRun → Bool
is_stale now r = ltb (r.finished_at + recent_run_ttl) now

unfoldable pub prune_runs : ℕ → List RecentRun → List RecentRun
prune_runs now rs =
    let recent = delete_func (is_stale now) rs in
    if ltb max_recent_runs (length recent)
    then drop (length recent - max_recent_runs) recent
    else recent

unfoldable pub prune : ℕ → Contents → Contents
prune now c = record c { recent_runs = prune_runs now c.recent_runs }

-- `save`: on success the file holds the contents.
unfoldable pub save : ℕ → Faults → Store → Store × Option Error
save now io s =
    let pruned = record s { contents = prune now s.contents } in
    if io.encodes
    then if io.makes_dir
      then if io.writes
        then (record pruned { file = holds pruned.contents }, none)
        else (pruned, some save_state)
      else (pruned, some create_state_directory)
    else (pruned, some encode_state)

-- `keepAside`: a rename, which fails where there is no file.
unfoldable pub keep_aside : Faults → Store → Store × Bool
keep_aside io s = elim s.file [
  | missing ↦ (s, false)
  | other ↦
      if io.renames
      then (record s { file = missing; aside = s.file ∷ s.aside }, true)
      else (s, false)
]

-- `Load`
unfoldable pub load : Faults → StateFile → List StateFile → Store × Option Error
load io file aside =
    let empty : Store = record { contents = empty_contents; file = file; aside = aside } in
    elim file [
      | missing ↦ (empty, none)
      | unreadable ↦ (empty, some read_state)
      | corrupt ↦ ((keep_aside io empty).0, none)
      | holds c ↦ (record empty { contents = c }, none)
    ]

unfoldable pub reset : ℕ → Faults → String → Store → Store × Option Error
reset now io machine_id s =
    save now io
      (record (keep_aside io s).0 { contents = record empty_contents { machine_id = machine_id } })

unfoldable pub set_machine_id : ℕ → Faults → String → Store → Store × Option Error
set_machine_id now io machine_id s =
    save now io (record s { contents = record (s.contents) { machine_id = machine_id } })

abbrev pub is_run : String → ActiveRun → Bool
is_run run_id r = str_eq r.run_id run_id

abbrev pub is_recent : String → RecentRun → Bool
is_recent run_id r = str_eq r.run_id run_id

-- `IndexFunc`, then an assignment or an `append`.
abbrev pub put {ℓ} : {A : Type ℓ} → (A → Bool) → A → List A → List A
put p a [] = a ∷ []
put p a (x ∷ xs) = let rest = put p a xs in if p x then a ∷ xs else x ∷ rest

unfoldable pub mark_active : ℕ → Faults → ActiveRun → Store → Store × Option Error
mark_active now io run s =
    let c = s.contents in
    save now io
      (record s { contents = record c { active_runs = put (is_run run.run_id) run c.active_runs } })

abbrev pub recent_of : ℕ → String → Outcome → RecentRun
recent_of now run_id o = record {
  run_id = run_id;
  status = o.status;
  exit_code = o.exit_code;
  started_at = o.started_at;
  finished_at = now;
  reason = o.reason;
}

unfoldable pub mark_finished : ℕ → Faults → String → Outcome → Store → Store × Option Error
mark_finished now io run_id outcome s =
    let c = s.contents in
    save now io (record s {
      contents = record c {
        active_runs = delete_func (is_run run_id) c.active_runs;
        recent_runs = put (is_recent run_id) (recent_of now run_id outcome) c.recent_runs;
      };
    })

unfoldable pub is_active : String → Store → Bool
is_active run_id s = contains_func (is_run run_id) s.contents.active_runs

unfoldable pub recent_outcome : String → Store → Option RecentRun
recent_outcome run_id s = find_func (is_recent run_id) s.contents.recent_runs
