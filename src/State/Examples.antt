-- ===== src/State/Examples.antt =====
-- The theorems about internal/state at concrete inputs.
use omj_agent.Base.{◌≡◌, true, false, none, some, [], ◌∷◌, arith, pos}
use omj_agent.State.{
  ActiveRun, RecentRun, Outcome, Store, Faults, corrupt, recent_of, mark_finished, is_active,
  recent_outcome,
}
use omj_agent.State.Recording.{mark_finished-recorded}

abbrev run_one : ActiveRun
run_one = record { run_id = "one"; pid = 10; pgid = 10; started_at = 5 }

abbrev old_run : RecentRun
old_run = record {
  run_id = "old";
  status = "success";
  exit_code = some (pos 0);
  started_at = some 1;
  finished_at = 2;
  reason = none;
}

abbrev store : Store
store = record {
  contents = record { machine_id = "m"; active_runs = run_one ∷ []; recent_runs = old_run ∷ [] };
  file = corrupt;
  aside = [];
}

abbrev working : Faults
working = record { renames = true; encodes = true; makes_dir = true; writes = true }

abbrev read_only : Faults
read_only = record { renames = false; encodes = true; makes_dir = true; writes = false }

abbrev failed : Outcome
failed = record { status = "failed"; exit_code = some (pos 1); started_at = some 5; reason = none }

mark_finished-recorded_example :
    let s' = (mark_finished 9 read_only "one" failed store).0 in
    (is_active "one" s' ≡ false) × (recent_outcome "one" s' ≡ some (recent_of 9 "one" failed))
mark_finished-recorded_example = mark_finished-recorded 9 read_only "one" failed store (omega arith)
