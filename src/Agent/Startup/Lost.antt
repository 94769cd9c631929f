-- ===== src/Agent/Startup/Lost.antt =====
-- What internal/agent/startup.go leaves of the runs of a previous process.
use omj_agent.Base.{
  ℕ, suc, ◌+◌, ◌≤◌, ◌<◌, ◌≡◌, ap, sym, ◌∙◌, subst, String, true, false, not, ◌&&◌, ◌||◌, some, List,
  [], ◌∷◌, arith, length, contains_func, str_eq, eq_iff, is_empty_str, Bool-cases, inl, inr,
}
use omj_agent.State.{
  Store, ActiveRun, Faults, is_run, is_active, mark_finished, recent_outcome, recent_of,
  recent_run_ttl, max_recent_runs, reset, set_machine_id, prune, prune_runs,
}
use omj_agent.State.Recording.{
  IsBounded, save-IsBounded, save-contents, mark_finished-recorded, mark_finished-other_active,
}
use omj_agent.State.Retention.{
  recorded_runs, mark_finished-recorded_runs, mark_finished-other_recent,
}
use omj_agent.Agent.Startup.{adopt, lost_outcome, reconcile_runs, reconcile}

module _ (clock : ℕ → ℕ) (io : Faults) where
  finished-active :
      (now : ℕ) (k j : String) (r : ActiveRun) (s : Store)
      → IsBounded s
      → is_active j (mark_finished now io k (lost_outcome r) s).0
        ≡ (is_active j s && not (str_eq k j))
  finished-active now k j r s b = elim (Bool-cases (str_eq k j)) [
    | inl t ↦
        ap (λ x. is_active x (mark_finished now io k (lost_outcome r) s).0) (sym ((eq_iff k j).0 t))
        ∙ (mark_finished-recorded now io k (lost_outcome r) s b).0
        ∙ ground (arith, t)
    | inr f ↦ mark_finished-other_active now io k j (lost_outcome r) s f ∙ ground (arith, f)
  ]

  finished-IsBounded :
      (now : ℕ) (k : String) (r : ActiveRun) (s : Store)
      → IsBounded (mark_finished now io k (lost_outcome r) s).0
  unfolding mark_finished
  finished-IsBounded now k r s = save-IsBounded now io _

  runs-active :
      (i : ℕ) (rs : List ActiveRun) (s : Store) (j : String)
      → IsBounded s
      → is_active j (reconcile_runs clock io i rs s)
        ≡ (is_active j s && not (contains_func (is_run j) rs))
  unfolding reconcile_runs
  runs-active i [] s j b = ground arith
  runs-active i (r ∷ rs) s j b =
      let s' = (mark_finished (clock i) io r.run_id (lost_outcome r) s).0 in
      ground (
        arith,
        runs-active (suc i) rs s' j (finished-IsBounded (clock i) r.run_id r s),
        finished-active (clock i) r.run_id j r s b,
      )

  -- After `reconcile` no run is active any more, if the outcomes on record were within their limit.
  pub reconcile-none_active :
      (s : Store) (j : String) → IsBounded s → is_active j (reconcile clock io s) ≡ false
  unfolding reconcile is_active
  reconcile-none_active s j b = ground (arith, runs-active 0 s.contents.active_runs s j b)

  -- A run that is on record as lost since the restart.
  abbrev pub IsRecordedLost : String → Store → Type 0
  IsRecordedLost j s =
      (i : ℕ) × (r : ActiveRun) × (recent_outcome j s
        ≡ some (recent_of (clock i) j (lost_outcome r)))

  module _ (quick : (i k : ℕ) → clock i ≤ clock k + recent_run_ttl) where
    finished-RecordedLost :
        (i : ℕ) (j : String) (r : ActiveRun) (s : Store)
        → IsBounded s
        → recorded_runs s < max_recent_runs
        → IsRecordedLost j s
        → IsRecordedLost j (mark_finished (clock i) io r.run_id (lost_outcome r) s).0
    finished-RecordedLost i j r s b room (k, r₀, e) = elim (Bool-cases (str_eq r.run_id j)) [
      | inl t ↦
          subst (λ x. IsRecordedLost x (mark_finished (clock i) io r.run_id (lost_outcome r) s).0)
            ((eq_iff r.run_id j).0 t)
            (i, r, (mark_finished-recorded (clock i) io r.run_id (lost_outcome r) s b).1)
      | inr f ↦ (
        k,
        r₀,
        mark_finished-other_recent (clock i) io r.run_id j (lost_outcome r) s _ f room
            (ground (arith, quick i k)) e,
      )
    ]

    runs-keep :
        (i : ℕ) (rs : List ActiveRun) (s : Store) (j : String)
        → IsBounded s
        → recorded_runs s + length rs ≤ max_recent_runs
        → IsRecordedLost j s
        → IsRecordedLost j (reconcile_runs clock io i rs s)
    unfolding reconcile_runs
    runs-keep i [] s j b room h = h
    runs-keep i (r ∷ rs) s j b room h =
        let full : recorded_runs s < max_recent_runs = omega (arith, room) in
        runs-keep (suc i) rs (mark_finished (clock i) io r.run_id (lost_outcome r) s).0 j
          (finished-IsBounded (clock i) r.run_id r s)
          (omega (
            arith,
            room,
            mark_finished-recorded_runs (clock i) io r.run_id (lost_outcome r) s full,
          ))
          (finished-RecordedLost i j r s b full h)

    runs-RecordedLost :
        (i : ℕ) (rs : List ActiveRun) (s : Store) (j : String)
        → IsBounded s
        → recorded_runs s + length rs ≤ max_recent_runs
        → contains_func (is_run j) rs ≡ true
        → IsRecordedLost j (reconcile_runs clock io i rs s)
    unfolding reconcile_runs
    runs-RecordedLost i [] s j b room c = absurd (ground (arith, c))
    runs-RecordedLost i (r ∷ rs) s j b room c =
        let s' = (mark_finished (clock i) io r.run_id (lost_outcome r) s).0 in
        let full : recorded_runs s < max_recent_runs = omega (arith, room) in
        let b' = finished-IsBounded (clock i) r.run_id r s in
        let room' : recorded_runs s' + length rs ≤ max_recent_runs = omega (
          arith,
          room,
          mark_finished-recorded_runs (clock i) io r.run_id (lost_outcome r) s full,
        ) in
        elim (Bool-cases (is_run j r)) [
          | inl t ↦ runs-keep (suc i) rs s' j b' room' (
              subst (λ x. IsRecordedLost x s') ((eq_iff r.run_id j).0 t)
                (i, r, (mark_finished-recorded (clock i) io r.run_id (lost_outcome r) s b).1))
          | inr f ↦ runs-RecordedLost (suc i) rs s' j b' room' (ground (arith, c, f))
        ]

    -- If the outcomes on record and the active runs fit the limit together, and the rounds take less
    -- than the week that outcomes are kept, then `reconcile` leaves every run that was active on
    -- record as lost, with the reason that the agent restarted.
    pub reconcile-RecordedLost :
        (s : Store) (j : String)
        → IsBounded s
        → recorded_runs s + length s.contents.active_runs ≤ max_recent_runs
        → is_active j s ≡ true
        → IsRecordedLost j (reconcile clock io s)
    unfolding reconcile is_active
    reconcile-RecordedLost s j b room c = runs-RecordedLost 0 s.contents.active_runs s j b room c

set_id :
    (now : ℕ) (io : Faults) (machine_id : String) (s : Store)
    → let c = (set_machine_id now io machine_id s).0.contents in
      (c.machine_id ≡ machine_id) × (c.active_runs ≡ s.contents.active_runs)
unfolding set_machine_id prune
set_id now io machine_id s = (
  ap (λ c. c.machine_id) (save-contents now io _),
  ap (λ c. c.active_runs) (save-contents now io _),
)

reset_id :
    (now : ℕ) (io : Faults) (machine_id : String) (s : Store)
    → let c = (reset now io machine_id s).0.contents in
      (c.machine_id ≡ machine_id) × (c.active_runs ≡ []) × (c.recent_runs ≡ [])
unfolding reset prune prune_runs
reset_id now io machine_id s = (
  ap (λ c. c.machine_id) (save-contents now io _),
  ap (λ c. c.active_runs) (save-contents now io _),
  ap (λ c. c.recent_runs) (save-contents now io _),
)

-- `adopt` leaves the file with this machine's id; it takes over the runs of a file that has this id or
-- none, and none of a file of another machine.
pub adopt_lem :
    (now : ℕ) (io : Faults) (machine_id : String) (s : Store)
    → let s' = adopt now io machine_id s in
      (s'.contents.machine_id ≡ machine_id)
      × ((str_eq s.contents.machine_id machine_id || is_empty_str s.contents.machine_id) ≡ true
          → s'.contents.active_runs ≡ s.contents.active_runs)
      × ((str_eq s.contents.machine_id machine_id || is_empty_str s.contents.machine_id) ≡ false
          → (s'.contents.active_runs ≡ []) × (s'.contents.recent_runs ≡ []))
unfolding adopt
adopt_lem now io machine_id s = ground (
  arith,
  eq_iff s.contents.machine_id machine_id,
  set_id now io machine_id s,
  reset_id now io machine_id s,
)
