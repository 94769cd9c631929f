-- ===== src/Discovery/Entries.antt =====
-- internal/discovery/discovery.go: the entries and the budget of one discovery. Byte counts of texts in
-- memory stay far below 2 ^ 63, so their sums do not wrap.
pub mod Budget
use omj_agent.Base.{
  ℕ, suc, ◌+◌, ◌≤◌, ◌<◌, Bool, true, false, not, ◌&&◌, ◌||◌, Option, none, some, List, [], ◌∷◌,
  ◌++◌, length, ltb, leb, ◌==◌, if◌then◌else◌, ℤ, positive_or,
}
use omj_agent.Text.{Text, codes, size, text_eq, is_nil, cut_suffix, has_any}
use omj_agent.Text.Trim.{trim_left, trim_right}
use omj_agent.Text.Split.{fields, cut_last}

pub data ScheduleKind : Type 0 where
  no_kind kind_cron kind_calendar kind_monotonic : ScheduleKind

abbrev pub kind_text : ScheduleKind → Text
kind_text no_kind = []
kind_text kind_cron = codes "cron"
kind_text kind_calendar = codes "calendar"
kind_text kind_monotonic = codes "monotonic"

pub record Entry : Type 0 where
  pub source : Text
  pub raw : Text
  pub schedule : Text
  pub schedule_kind : ScheduleKind
  pub timezone : Text
  pub command : Text
  pub user : Text
  pub unit : Text
  pub is_agent : Bool
  pub unparseable : Bool
  pub note : Text

-- `Entry{}`
unfoldable pub empty_entry : Entry
empty_entry = record {
  source = [];
  raw = [];
  schedule = [];
  schedule_kind = no_kind;
  timezone = [];
  command = [];
  user = [];
  unit = [];
  is_agent = false;
  unparseable = false;
  note = [];
}

pub record Unreadable : Type 0 where
  pub source : Text
  pub reason : Text

pub record Paths : Type 0 where
  pub system_crontab : Text
  pub cron_dir : Text
  pub spool_dirs : List Text

unfoldable pub paths_empty : Paths → Bool
paths_empty p = is_nil p.system_crontab && is_nil p.cron_dir && is_nil p.spool_dirs

-- The part of a `Collector` that holds values.
pub record Limits : Type 0 where
  pub max_entries : ℕ
  pub max_bytes : ℕ

abbrev pub default_max_entries : ℕ
default_max_entries = 500

abbrev pub default_max_bytes : ℕ
default_max_bytes = 524288

abbrev pub entry_overhead : ℕ
entry_overhead = 128

-- `withDefaults` on the two limits, and on the paths.
unfoldable pub with_defaults : ℤ → ℤ → Limits
with_defaults entries bytes = record {
  max_entries = positive_or default_max_entries entries;
  max_bytes = positive_or default_max_bytes bytes;
}

unfoldable pub default_paths : Paths → Paths → Paths
default_paths machine p = if paths_empty p then machine else p

pub record Collection : Type 0 where
  pub limits : Limits
  pub entries : List Entry
  pub unreadable : List Unreadable
  pub bytes : ℕ
  pub omitted : ℕ
  pub spent : Bool

unfoldable pub new_collection : Limits → Collection
new_collection l = record {
  limits = l;
  entries = [];
  unreadable = [];
  bytes = 0;
  omitted = 0;
  spent = false;
}

unfoldable pub entry_size : Entry → ℕ
entry_size e =
    entry_overhead
    + size e.source
    + size e.raw
    + size e.schedule
    + size (kind_text e.schedule_kind)
    + size e.timezone
    + size e.command
    + size e.user
    + size e.unit
    + size e.note

unfoldable pub add : Entry → Collection → Collection
add e c =
    let n = entry_size e in
    if ltb c.limits.max_bytes n
    then record c { omitted = suc c.omitted }
    else if c.spent
        || leb c.limits.max_entries (length c.entries)
        || ltb c.limits.max_bytes (c.bytes + n)
    then record c { spent = true; omitted = suc c.omitted }
    else record c { bytes = c.bytes + n; entries = c.entries ++ e ∷ [] }

unfoldable pub full : Collection → Bool
full c = c.spent || leb c.limits.max_entries (length c.entries)

-- An error of the file system or of a program: whether it is `os.ErrNotExist`, and its text.
pub record SourceError : Type 0 where
  pub absent : Bool
  pub reason : Text

unfoldable pub unreadable_source : Text → SourceError → Collection → Collection
unreadable_source source err c =
    if err.absent
    then c
    else if leb c.limits.max_entries (length c.unreadable)
    then c
    else record c {
      unreadable = c.unreadable ++ record { source = source; reason = err.reason } ∷ [];
    }

abbrev pub agent_binary : Text
agent_binary = codes "omj-agent"

-- `filepath.Ext` cut off: what stands before the last dot of the last path element.
abbrev pub without_ext : Text → Text
without_ext [] = []
without_ext (c ∷ s) =
    let rest = without_ext s in
    if c == b'.' && not (has_any (λ d. d == b'.' || d == b'/') s) then [] else c ∷ rest

-- `filepath.Base` of a text that is not empty.
abbrev after_slash : Text → Text → Text
after_slash word [] = word
after_slash word (c ∷ s) =
    let fresh = after_slash [] s in
    let longer = after_slash (word ++ c ∷ []) s in if c == b'/' then fresh else longer

unfoldable pub file_base : Text → Text
file_base s =
    let stripped = trim_right (λ c. c == b'/') s in
    if is_nil stripped then codes "/" else after_slash [] stripped

abbrev is_quote : ℕ → Bool
is_quote c = c == b'"' || c == b'\''

-- `strings.Trim` of the two quotes.
abbrev pub trim_quotes : Text → Text
trim_quotes s = trim_left is_quote (trim_right is_quote s)

abbrev pub runs_token : Text → Text → Bool
runs_token executable field =
    let token = trim_quotes field in
    not (is_nil token)
    && ((not (is_nil executable) && text_eq token executable)
        || text_eq (file_base token) agent_binary)

abbrev pub any_token : Text → List Text → Bool
any_token executable [] = false
any_token executable (f ∷ fs) = runs_token executable f || any_token executable fs

unfoldable pub runs_agent : Text → Text → Text → Bool
runs_agent command unit executable =
    (not (is_nil unit) && text_eq (without_ext unit) agent_binary)
    || any_token executable (fields command)
