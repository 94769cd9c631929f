-- ===== src/State/Pruning.antt =====
-- `prune` of internal/state/state.go, and searches in the lists that it leaves.
use omj_agent.Base.{
  ℕ, zero, suc, ◌-◌, ◌≤◌, ◌≡◌, refl, ap, ◌∙◌, Bool, true, false, none, some, List, [], ◌∷◌, ◌++◌,
  arith, ltb, length, length-drop, drop, delete_func, contains_func, find_func, All,
  length-delete_func-le, Bool-cases, inl, inr,
}
use omj_agent.State.{RecentRun, is_stale, prune_runs, max_recent_runs}

module _ {ℓ} {A : Type ℓ} where
  pub All-drop {κ} : (P : A → Type κ) (n : ℕ) (xs : List A) → All P xs → All P (drop n xs)
  All-drop P zero xs h = h
  All-drop P (suc n) [] h = h
  All-drop P (suc n) (x ∷ xs) h = All-drop P n xs h.1

  pub All-delete_func : (p : A → Bool) (xs : List A) → All (λ x. p x ≡ false) (delete_func p xs)
  All-delete_func p [] = tt
  All-delete_func p (x ∷ xs) = elim (Bool-cases (p x)) [
    | inl e ↦ rw e (All-delete_func p xs)
    | inr e ↦ rw e (e, All-delete_func p xs)
  ]

  pub contains_func-delete_func :
      (p : A → Bool) (xs : List A) → contains_func p (delete_func p xs) ≡ false
  contains_func-delete_func p [] = refl
  contains_func-delete_func p (x ∷ xs) = ground (arith, contains_func-delete_func p xs)

  -- Deleting what a test accepts changes no search for what it refuses.
  pub contains_func-delete_func_ne :
      (p q : A → Bool) (xs : List A)
      → ((x : A) → q x ≡ true → p x ≡ false)
      → contains_func q (delete_func p xs) ≡ contains_func q xs
  contains_func-delete_func_ne p q [] h = refl
  contains_func-delete_func_ne p q (x ∷ xs) h =
      ground (arith, h x, contains_func-delete_func_ne p q xs h)

  pub find_func-delete_func :
      (p q : A → Bool) (xs : List A) (a : A)
      → find_func p xs ≡ some a
      → q a ≡ false
      → find_func p (delete_func q xs) ≡ some a
  find_func-delete_func p q [] a e h = cc
  find_func-delete_func p q (x ∷ xs) a e h = elim (Bool-cases (p x)) [
    | inl t ↦
        let same : x ≡ a = ground arith in let kept : q x ≡ false = ap q same ∙ h in ground arith
    | inr f ↦ ground (arith, find_func-delete_func p q xs a)
  ]

  pub delete_func-append :
      (p : A → Bool) (xs ys : List A)
      → delete_func p (xs ++ ys) ≡ delete_func p xs ++ delete_func p ys
  delete_func-append p [] ys = refl
  delete_func-append p (x ∷ xs) ys = ground (arith, delete_func-append p xs ys)

  pub find_func-delete_none :
      (p q : A → Bool) (xs : List A) → find_func p xs ≡ none → find_func p (delete_func q xs) ≡ none
  find_func-delete_none p q [] e = refl
  find_func-delete_none p q (x ∷ xs) e = ground (arith, find_func-delete_none p q xs)

  -- A last entry is found whatever is dropped before it.
  pub find_func-drop_last :
      (p : A → Bool) (n : ℕ) (xs : List A) (a : A)
      → n ≤ length xs
      → find_func p xs ≡ none
      → p a ≡ true
      → find_func p (drop n (xs ++ a ∷ [])) ≡ some a
  find_func-drop_last p zero [] a h e t = rw t
  find_func-drop_last p zero (x ∷ xs) a h e t =
      ground (arith, find_func-drop_last p zero xs a (omega arith))
  find_func-drop_last p (suc n) [] a h e t = absurd (omega arith)
  find_func-drop_last p (suc n) (x ∷ xs) a h e t =
      find_func-drop_last p n xs a (omega arith) (ground arith) t

  pub find_func-append :
      (p : A → Bool) (xs ys : List A) (a : A)
      → find_func p xs ≡ some a
      → find_func p (xs ++ ys) ≡ some a
  find_func-append p [] ys a e = cc
  find_func-append p (x ∷ xs) ys a e = ground (arith, find_func-append p xs ys a)

-- The outcomes that pruning leaves are at most as many as the limit, and none is stale.
pub prune_runs_lem :
    (now : ℕ) (rs : List RecentRun)
    → (length (prune_runs now rs) ≤ max_recent_runs)
      × All (λ r. is_stale now r ≡ false) (prune_runs now rs)
unfolding prune_runs
prune_runs_lem now rs =
    let recent = delete_func (is_stale now) rs in
    elim (Bool-cases (ltb max_recent_runs (length recent))) [
      | inl over ↦ rw over (
        omega (arith, length-drop (length recent - max_recent_runs) recent),
        All-drop _ _ recent (All-delete_func (is_stale now) rs),
      )
      | inr fits ↦ rw fits (ground arith, All-delete_func (is_stale now) rs)
    ]

-- Within the limit only stale runs are dropped.
pub prune_runs_small :
    (now : ℕ) (rs : List RecentRun)
    → length rs ≤ max_recent_runs
    → prune_runs now rs ≡ delete_func (is_stale now) rs
unfolding prune_runs
prune_runs_small now rs h = ground (arith, length-delete_func-le (is_stale now) rs)

drop_by_zero {ℓ} : {A : Type ℓ} (n : ℕ) (xs : List A) → n ≡ 0 → xs ≡ drop n xs
drop_by_zero zero xs h = refl
drop_by_zero (suc n) xs h = absurd (omega arith)

-- Pruning in one expression: the oldest entries above the limit go.
pub prune_runs-drop :
    (now : ℕ) (rs : List RecentRun)
    → let recent = delete_func (is_stale now) rs in
      prune_runs now rs ≡ drop (length recent - max_recent_runs) recent
unfolding prune_runs
prune_runs-drop now rs =
    let recent = delete_func (is_stale now) rs in
    elim (Bool-cases (ltb max_recent_runs (length recent))) [
      | inl over ↦ rw over
      | inr fits ↦ rw fits (drop_by_zero (length recent - max_recent_runs) recent (ground arith))
    ]
