-- ===== src/State/Recording.antt =====
-- `MarkActive`, `MarkFinished`, `IsActive` and `RecentOutcome` of internal/state/state.go.
use text.Mathlib.TextPositions.{eq_refl}
use omj_agent.Base.{
  ℕ, ◌-◌, ◌≤◌, ◌≡◌, refl, ap, ◌∙◌, sym, String, Bool, true, false, none, some, List, [], ◌∷◌, ◌++◌,
  arith, length, length-append, delete_func, contains_func, find_func, length-delete_func-le, inl,
  inr, str_eq, eq_iff, Option-cases, subst,
}
use omj_agent.State.{
  ActiveRun, RecentRun, Outcome, Store, Faults, is_stale, prune, prune_runs, max_recent_runs, put,
  save, is_run, is_recent, recent_of, mark_active, mark_finished, is_active, recent_outcome,
}
use omj_agent.State.Pruning.{
  prune_runs_lem, prune_runs_small, prune_runs-drop, find_func-delete_func, find_func-drop_last,
  find_func-delete_none, delete_func-append, contains_func-delete_func,
  contains_func-delete_func_ne,
}

-- No more finished runs than a save leaves.
abbrev pub IsBounded : Store → Type 0
IsBounded s = length s.contents.recent_runs ≤ max_recent_runs

-- Whether or not the save succeeds, the store holds the pruned contents.
pub save-contents :
    (now : ℕ) (io : Faults) (s : Store) → (save now io s).0.contents ≡ prune now s.contents
unfolding save
save-contents now io s = ground arith

pub save-IsBounded : (now : ℕ) (io : Faults) (s : Store) → IsBounded (save now io s).0
unfolding prune
save-IsBounded now io s =
    subst (λ c. length c.recent_runs ≤ max_recent_runs) (sym (save-contents now io s))
      (prune_runs_lem now s.contents.recent_runs).0

module _ {ℓ} {A : Type ℓ} (p : A → Bool) (a : A) where
  pub put-absent : (xs : List A) → find_func p xs ≡ none → put p a xs ≡ xs ++ a ∷ []
  put-absent [] e = refl
  put-absent (x ∷ xs) e = ground (arith, put-absent xs)

  pub length-put : (xs : List A) (b : A) → find_func p xs ≡ some b → length (put p a xs) ≡ length xs
  length-put [] b e = cc
  length-put (x ∷ xs) b e = ground (arith, length-put xs b)

  pub find_func-put : (xs : List A) → p a ≡ true → find_func p (put p a xs) ≡ some a
  find_func-put [] t = rw t
  find_func-put (x ∷ xs) t = ground (arith, find_func-put xs t)

  -- Putting an entry changes no search that passes over what it replaces.
  pub contains_func-put_ne :
      (q : A → Bool) (xs : List A)
      → q a ≡ false
      → ((x : A) → p x ≡ true → q x ≡ false)
      → contains_func q (put p a xs) ≡ contains_func q xs
  contains_func-put_ne q [] t h = ground arith
  contains_func-put_ne q (x ∷ xs) t h = ground (arith, h x, contains_func-put_ne q xs t h)

  pub contains_func-put : (xs : List A) → p a ≡ true → contains_func p (put p a xs) ≡ true
  contains_func-put [] t = rw t
  contains_func-put (x ∷ xs) t = ground (arith, contains_func-put xs t)

fresh_now :
    (now : ℕ) (run_id : String) (o : Outcome) → is_stale now (recent_of now run_id o) ≡ false
fresh_now now run_id o = ground arith

append-survives :
    (now : ℕ) (run_id : String) (a : RecentRun) (rs : List RecentRun)
    → length rs ≤ max_recent_runs
    → find_func (is_recent run_id) rs ≡ none
    → is_recent run_id a ≡ true
    → is_stale now a ≡ false
    → find_func (is_recent run_id) (prune_runs now (rs ++ a ∷ [])) ≡ some a
append-survives now run_id a rs bound e t fresh =
    let d = delete_func (is_stale now) rs in
    let split : delete_func (is_stale now) (rs ++ a ∷ []) ≡ d ++ a ∷ [] =
      delete_func-append (is_stale now) rs (a ∷ []) ∙ rw fresh in
    rw (prune_runs-drop now (rs ++ a ∷ []), split)
      (find_func-drop_last (is_recent run_id) (length (d ++ a ∷ []) - max_recent_runs) d a
        (omega (arith, length-append d (a ∷ []), length-delete_func-le (is_stale now) rs))
        (find_func-delete_none (is_recent run_id) (is_stale now) rs e) t)

-- The record that is put is found after the pruning.
put-survives :
    (now : ℕ) (run_id : String) (o : Outcome) (rs : List RecentRun)
    → length rs ≤ max_recent_runs
    → find_func
        (is_recent run_id)
        (prune_runs now (put (is_recent run_id) (recent_of now run_id o) rs))
      ≡ some (recent_of now run_id o)
put-survives now run_id o rs bound = elim (Option-cases (find_func (is_recent run_id) rs)) [
  | inr (b, e) ↦
      let a = recent_of now run_id o in
      let l = put (is_recent run_id) a rs in
      rw (prune_runs_small now l (omega (arith, length-put (is_recent run_id) a rs b e))) (
        find_func-delete_func (is_recent run_id) (is_stale now) l a
          (find_func-put (is_recent run_id) a rs (eq_refl run_id)) (fresh_now now run_id o))
  | inl e ↦ rw (put-absent (is_recent run_id) (recent_of now run_id o) rs e) (
      append-survives now run_id (recent_of now run_id o) rs bound e (eq_refl run_id)
        (fresh_now now run_id o))
]

-- From a store that has no more outcomes on record than a save leaves: after `MarkFinished` the run
-- is not active any more, and its outcome is on record with the time of the call, whether or not the
-- file could be written.
pub mark_finished-recorded :
    (now : ℕ) (io : Faults) (run_id : String) (o : Outcome) (s : Store)
    → IsBounded s
    → let s' = (mark_finished now io run_id o s).0 in
      (is_active run_id s' ≡ false) × (recent_outcome run_id s' ≡ some (recent_of now run_id o))
unfolding mark_finished is_active recent_outcome prune
mark_finished-recorded now io run_id o s bound = (
  ap (λ c. contains_func (is_run run_id) c.active_runs) (save-contents now io _)
      ∙ contains_func-delete_func (is_run run_id) s.contents.active_runs,
  ap (λ c. find_func (is_recent run_id) c.recent_runs) (save-contents now io _)
      ∙ put-survives now run_id o s.contents.recent_runs bound,
)

is_run_ne :
    (k j : String) (r : ActiveRun) → str_eq k j ≡ false → is_run k r ≡ true → is_run j r ≡ false
is_run_ne k j r ne e = ground (arith, eq_iff r.run_id k, eq_iff r.run_id j, eq_iff k j)

is_run_ne_sym :
    (k j : String) (r : ActiveRun) → str_eq k j ≡ false → is_run j r ≡ true → is_run k r ≡ false
is_run_ne_sym k j r ne e = ground (arith, eq_iff r.run_id k, eq_iff r.run_id j, eq_iff k j)

-- `MarkFinished` of one run leaves the activity of every other run as it was.
pub mark_finished-other_active :
    (now : ℕ) (io : Faults) (k j : String) (o : Outcome) (s : Store)
    → str_eq k j ≡ false
    → is_active j (mark_finished now io k o s).0 ≡ is_active j s
unfolding mark_finished is_active prune
mark_finished-other_active now io k j o s ne =
    ap (λ c. contains_func (is_run j) c.active_runs) (save-contents now io _)
    ∙ contains_func-delete_func_ne (is_run k) (is_run j) s.contents.active_runs
        (λ r e. is_run_ne_sym k j r ne e)

-- `MarkActive` makes its run active and changes the activity of no other run, whether or not the file
-- could be written.
pub mark_active_lem :
    (now : ℕ) (io : Faults) (run : ActiveRun) (s : Store)
    → let s' = (mark_active now io run s).0 in
      (is_active run.run_id s' ≡ true)
      × ((j : String) → str_eq run.run_id j ≡ false → is_active j s' ≡ is_active j s)
unfolding mark_active is_active prune
mark_active_lem now io run s = (
  ap (λ c. contains_func (is_run run.run_id) c.active_runs) (save-contents now io _)
      ∙ contains_func-put (is_run run.run_id) run s.contents.active_runs (eq_refl run.run_id),
  λ j ne.
      ap (λ c. contains_func (is_run j) c.active_runs) (save-contents now io _)
      ∙ contains_func-put_ne (is_run run.run_id) run (is_run j) s.contents.active_runs ne
          (λ r e. is_run_ne run.run_id j r ne e),
)
