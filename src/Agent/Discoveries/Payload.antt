-- ===== src/Agent/Discoveries/Payload.antt =====
-- `DiscoveryPayload` of internal/agent/discovery.go, the wire form of a collection.
use omj_agent.Base.{ℕ, ◌≡◌, refl, Bool, Option, none, some, List, [], ◌∷◌, ltb, if◌then◌else◌, map}
use omj_agent.Text.{Text, codes, is_nil, text_eq}
use omj_agent.Discovery.Entries.{
  ScheduleKind, no_kind, kind_cron, kind_calendar, kind_monotonic, kind_text, Entry, Unreadable,
  Collection,
}

-- A field that the source did not state is absent.
unfoldable pub optional : Text → Option Text
optional value = if is_nil value then none else some value

pub record DiscoveredEntry : Type 0 where
  pub source : Text
  pub raw : Text
  pub schedule : Option Text
  pub schedule_kind : Option Text
  pub timezone : Option Text
  pub command : Option Text
  pub run_as : Option Text
  pub unit : Option Text
  pub is_agent : Bool
  pub unparseable : Bool
  pub note : Option Text

pub record DiscoveryRequest : Type 0 where
  pub truncated : Bool
  pub omitted_entries : ℕ
  pub unreadable_sources : List Unreadable
  pub entries : List DiscoveredEntry

unfoldable pub payload_entry : Entry → DiscoveredEntry
payload_entry e = record {
  source = e.source;
  raw = e.raw;
  schedule = optional e.schedule;
  schedule_kind = optional (kind_text e.schedule_kind);
  timezone = optional e.timezone;
  command = optional e.command;
  run_as = optional e.user;
  unit = optional e.unit;
  is_agent = e.is_agent;
  unparseable = e.unparseable;
  note = optional e.note;
}

unfoldable pub discovery_payload : Collection → DiscoveryRequest
discovery_payload c = record {
  truncated = ltb 0 c.omitted;
  omitted_entries = c.omitted;
  unreadable_sources = c.unreadable;
  entries = map payload_entry c.entries;
}

-- What the server reads out of a field, of a kind and of an entry.
abbrev stated : Option Text → Text
stated none = []
stated (some value) = value

abbrev kind_of : Option Text → ScheduleKind
kind_of none = no_kind
kind_of (some text) =
    if text_eq text (codes "cron")
    then kind_cron
    else if text_eq text (codes "calendar")
    then kind_calendar
    else kind_monotonic

abbrev entry_of : DiscoveredEntry → Entry
entry_of d = record {
  source = d.source;
  raw = d.raw;
  schedule = stated d.schedule;
  schedule_kind = kind_of d.schedule_kind;
  timezone = stated d.timezone;
  command = stated d.command;
  user = stated d.run_as;
  unit = stated d.unit;
  is_agent = d.is_agent;
  unparseable = d.unparseable;
  note = stated d.note;
}

stated-optional : (value : Text) → stated (optional value) ≡ value
unfolding optional
stated-optional [] = refl
stated-optional (c ∷ s) = refl

kind_of-optional : (kind : ScheduleKind) → kind_of (optional (kind_text kind)) ≡ kind
unfolding optional
kind_of-optional no_kind = refl
kind_of-optional kind_cron = refl
kind_of-optional kind_calendar = refl
kind_of-optional kind_monotonic = refl

entry_of-payload_entry : (e : Entry) → entry_of (payload_entry e) ≡ e
unfolding payload_entry
entry_of-payload_entry e = simp (
  stated-optional e.schedule,
  kind_of-optional e.schedule_kind,
  stated-optional e.timezone,
  stated-optional e.command,
  stated-optional e.user,
  stated-optional e.unit,
  stated-optional e.note,
)

entries-payload : (es : List Entry) → map entry_of (map payload_entry es) ≡ es
entries-payload [] = refl
entries-payload (e ∷ es) = simp (entry_of-payload_entry e, entries-payload es)

-- The wire form loses nothing: the entries, the sources that could not be read and the number left
-- out are read back from it, and it is marked truncated just when an entry was left out.
pub discovery_payload-read :
    (c : Collection)
    → let d = discovery_payload c in
      (map entry_of d.entries ≡ c.entries)
      × (d.unreadable_sources ≡ c.unreadable)
      × (d.omitted_entries ≡ c.omitted)
      × (d.truncated ≡ ltb 0 c.omitted)
unfolding discovery_payload
discovery_payload-read c = (entries-payload c.entries, refl, refl, refl)
