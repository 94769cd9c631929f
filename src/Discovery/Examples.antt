-- ===== src/Discovery/Examples.antt =====
-- The theorems about internal/discovery at concrete inputs.
use omj_agent.Base.{
  ℕ, ◌+◌, ◌≡◌, ◌⊎◌, refl, inr, Bool, true, false, none, some, List, [], ◌∷◌, ◌++◌, length,
  delete_func,
}
use omj_agent.Text.{Text, codes, is_blank, is_space, lower_rune}
use omj_agent.Text.Trim.{trim_right, trim_space}
use omj_agent.Text.Decimal.{atoi}
use omj_agent.Discovery.Entries.{
  Entry, Limits, Collection, Paths, empty_entry, new_collection, add, entry_size, runs_agent,
  file_base,
}
use omj_agent.Discovery.Entries.Budget.{add_all, total, beginning, oversized, add_all-beginning}
use omj_agent.Discovery.Names.{is_user_name}
use omj_agent.Discovery.Schedule.{
  cut_field, validate, validate_item, validate_value, five_schedule, nickname_schedule,
  cron_schedule,
}
use omj_agent.Discovery.Schedule.Reparse.{cron_schedule-schedule}
use omj_agent.Discovery.Crontab.{
  cron_command, environment_assignment, parse, parse_entry, with_user, with_command,
}
use omj_agent.Discovery.Crontab.Commands.{cron_command-escape}
use omj_agent.Discovery.Crontab.Assignments.{environment_assignment-cron_schedule}
use omj_agent.Discovery.Sources.{Files, read_crontab, read_system_crontab, read_cron_directory}
use omj_agent.Discovery.Timers.{property_groups}
use omj_agent.Discovery.Timers.Groups.{outside, scan_groups, property_groups-scan}
use omj_agent.Discovery.Units.{Systemctl, collect, read_timers}
use omj_agent.Discovery.Units.Report.{IsReport, collect-IsReport, collect_ends}

abbrev small : Limits
small = record { max_entries = 2; max_bytes = 1000 }

abbrev entry : Text → Entry
entry raw = record empty_entry { raw = raw }

abbrev three : List Entry
three = entry (codes "a") ∷ entry (codes "b") ∷ entry (codes "c") ∷ []

add_all-beginning_example :
    ((add_all three (new_collection small)).entries
      ≡ beginning 2 1000 (delete_func (oversized 1000) three))
    × ((add_all three (new_collection small)).omitted
          + length (add_all three (new_collection small)).entries
        ≡ 3)
    × ((add_all three (new_collection small)).bytes
        ≡ total (add_all three (new_collection small)).entries)
add_all-beginning_example = add_all-beginning small three

cron_command-escape_example :
    cron_command (codes "date +\\%F ") ≡ trim_right is_blank (codes "date +%F ")
cron_command-escape_example = cron_command-escape (codes "date +%F ")

cron_schedule-schedule_example :
    cron_schedule (codes "5 4 * jan 1-5") ≡ inr (codes "5 4 * jan 1-5", [])
unfolding cron_schedule five_schedule cut_field validate validate_item validate_value atoi
    lower_rune
cron_schedule-schedule_example =
    cron_schedule-schedule (codes "5\t4  * jan 1-5 run") (codes "5 4 * jan 1-5") (codes "run") refl

environment_assignment-cron_schedule_example :
    environment_assignment (trim_space (codes " -@daily a=b")) ≡ none
unfolding cron_schedule nickname_schedule cut_field lower_rune trim_space is_space
environment_assignment-cron_schedule_example =
    environment_assignment-cron_schedule (codes " -@daily a=b") (codes "@daily") (codes "a=b") refl

property_groups-scan_example :
    property_groups (codes "{ a } { b") ≡ scan_groups outside (codes "{ a } { b")
property_groups-scan_example = property_groups-scan (codes "{ a } { b")

abbrev no_print : ℕ → Bool
no_print c = false

abbrev files : Files
files = record {
  read_file = λ path. inr (codes "5 4 * * * root backup\n");
  read_dir = λ path. inr [];
  join_path = λ dir name. dir ++ codes "/" ++ name;
}

abbrev machine : Paths
machine = record { system_crontab = codes "/etc/crontab"; cron_dir = []; spool_dirs = [] }

abbrev no_systemd : Systemctl
no_systemd = record {
  available = false;
  list_timers = inr [];
  show_unit = λ unit properties. inr [];
}

abbrev never : ℕ → Bool
never n = false

abbrev collected : Collection
collected = elim (collect no_print no_systemd never [] files machine small) [
  | none ↦ new_collection small
  | some c ↦ c
]

collect-IsReport_example : IsReport small collected
unfolding collect read_system_crontab read_cron_directory read_crontab parse parse_entry with_user
    with_command environment_assignment cron_schedule five_schedule cut_field validate validate_item
    validate_value atoi lower_rune is_user_name cron_command runs_agent file_base add entry_size
    trim_space is_space empty_entry new_collection read_timers
collect-IsReport_example =
    collect-IsReport no_print no_systemd never [] files machine small collected refl

collect_ends_example :
    ((n : ℕ) × (never n ≡ true))
    ⊎ ((c : Collection) × (collect no_print no_systemd never [] files machine small ≡ some c))
collect_ends_example = collect_ends no_print no_systemd never [] files machine small
