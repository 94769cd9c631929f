-- ===== src/State/Retention.antt =====
-- How long `MarkFinished` of internal/state/state.go keeps the outcomes of other runs.
use omj_agent.Base.{
  ℕ, suc, ◌≤◌, ◌<◌, ◌≡◌, ap, ◌∙◌, String, Bool, true, false, some, List, [], ◌∷◌, arith, length,
  find_func, str_eq, eq_iff, length-delete_func-le,
}
use omj_agent.State.{
  RecentRun, Outcome, Store, Faults, is_stale, prune, max_recent_runs, put, is_recent, recent_of,
  mark_finished, recent_outcome,
}
use omj_agent.State.Pruning.{prune_runs_small, find_func-delete_func}
use omj_agent.State.Recording.{save-contents}

abbrev pub recorded_runs : Store → ℕ
recorded_runs s = length s.contents.recent_runs

module _ {ℓ} {A : Type ℓ} (p : A → Bool) (a : A) where
  length-put-le : (xs : List A) → length (put p a xs) ≤ suc (length xs)
  length-put-le [] = omega arith
  length-put-le (x ∷ xs) = ground (arith, length-put-le xs)

  find_func-put_ne :
      (q : A → Bool) (xs : List A) (b : A)
      → q a ≡ false
      → ((x : A) → q x ≡ true → p x ≡ false)
      → find_func q xs ≡ some b
      → find_func q (put p a xs) ≡ some b
  find_func-put_ne q [] b n h e = absurd (ground (arith, e))
  find_func-put_ne q (x ∷ xs) b n h e = ground (arith, h x, n, e, find_func-put_ne q xs b n h)

is_recent_ne :
    (k j : String) (r : RecentRun)
    → str_eq k j ≡ false
    → is_recent j r ≡ true
    → is_recent k r ≡ false
is_recent_ne k j r ne e = ground (arith, eq_iff r.run_id k, eq_iff r.run_id j, eq_iff k j, e)

-- `MarkFinished` adds at most one outcome.
pub mark_finished-recorded_runs :
    (now : ℕ) (io : Faults) (k : String) (o : Outcome) (s : Store)
    → recorded_runs s < max_recent_runs
    → recorded_runs (mark_finished now io k o s).0 ≤ suc (recorded_runs s)
unfolding mark_finished prune
mark_finished-recorded_runs now io k o s h =
    let l = put (is_recent k) (recent_of now k o) s.contents.recent_runs in
    let grown = length-put-le (is_recent k) (recent_of now k o) s.contents.recent_runs in
    let pruned = prune_runs_small now l (omega (arith, grown, h)) in
    omega (
      arith,
      grown,
      length-delete_func-le (is_stale now) l,
      ap length pruned,
      ap (λ c. length c.recent_runs) (save-contents now io _),
    )

-- The outcome of another run stays on record while it is not older than the week that outcomes are
-- kept and there is room for one more.
pub mark_finished-other_recent :
    (now : ℕ) (io : Faults) (k j : String) (o : Outcome) (s : Store) (r : RecentRun)
    → str_eq k j ≡ false
    → recorded_runs s < max_recent_runs
    → is_stale now r ≡ false
    → recent_outcome j s ≡ some r
    → recent_outcome j (mark_finished now io k o s).0 ≡ some r
unfolding mark_finished recent_outcome prune
mark_finished-other_recent now io k j o s r ne room fresh e =
    let a = recent_of now k o in
    let rs = s.contents.recent_runs in
    let small : length (put (is_recent k) a rs) ≤ max_recent_runs =
      omega (arith, room, length-put-le (is_recent k) a rs) in
    ap (λ c. find_func (is_recent j) c.recent_runs) (save-contents now io _)
    ∙ rw (prune_runs_small now (put (is_recent k) a rs) small) (
        find_func-delete_func (is_recent j) (is_stale now) (put (is_recent k) a rs) r
          (find_func-put_ne (is_recent k) a (is_recent j) rs r ne (λ x t. is_recent_ne k j x ne t)
            e)
          fresh)
