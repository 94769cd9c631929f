-- ===== src/State/Durability.antt =====
-- What internal/state/state.go leaves in the file, and what it reads back.
use omj_agent.Base.{ℕ, ◌≡◌, ◌⊎◌, String, false, none, some, List, ◌∷◌, arith}
use omj_agent.State.{
  Store, StateFile, Faults, missing, unreadable, corrupt, holds, empty_contents, read_state, save,
  prune, load, keep_aside, reset, is_active, recent_outcome, prune_runs,
}

-- Loading fails only on a file that cannot be read. A missing or corrupt file gives an empty
-- store, and a corrupt one is moved aside or left as it is, never overwritten.
pub load-cases :
    (io : Faults) (file : StateFile) (aside : List StateFile)
    → let (s, err) = load io file aside in
      ((err ≡ none)
        × ((file ≡ holds s.contents) ⊎ (s.contents ≡ empty_contents))
        × (((s.file ≡ file) × (s.aside ≡ aside)) ⊎ ((s.file ≡ missing) × (s.aside ≡ file ∷ aside))))
      ⊎ ((err ≡ some read_state) × (file ≡ unreadable))
unfolding load keep_aside
load-cases io missing aside = ground arith
load-cases io unreadable aside = ground arith
load-cases io corrupt aside = ground arith
load-cases io (holds c) aside = ground arith

-- After `Reset` the store is the new machine's, and no run is active or on record in it.
pub reset-empty :
    (now : ℕ) (io : Faults) (machine_id run_id : String) (s : Store)
    → let s' = (reset now io machine_id s).0 in
      (s'.contents.machine_id ≡ machine_id)
      × (is_active run_id s' ≡ false)
      × (recent_outcome run_id s' ≡ none)
unfolding reset is_active recent_outcome save prune prune_runs
reset-empty now io machine_id run_id s = ground arith
