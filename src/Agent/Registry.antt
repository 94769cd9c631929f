-- ===== src/Agent/Registry.antt =====
-- internal/agent/registry.go: the runs that this process owns, and the leases already warned
-- about.
use text.Mathlib.TextPositions.{eq_refl}
use omj_agent.Base.{
  ℕ, ◌≤◌, ◌≡◌, refl, String, Bool, true, false, not, Option, none, some, List, [], ◌∷◌, ◌++◌, arith,
  leb, if◌then◌else◌, length, find_func, contains_func, str_eq, eq_iff, Bool-cases, inl, inr, subst,
}
use omj_agent.Agent.Types.{Run}

abbrev pub is_run_of : String → Run → Bool
is_run_of run_id r = str_eq r.lease.run_id run_id

unfoldable pub add : Run → List Run → List Run
add run runs = runs ++ run ∷ []

-- The first run of that id goes.
unfoldable pub remove : String → List Run → List Run
remove run_id [] = []
remove run_id (r ∷ rs) = let rest = remove run_id rs in if is_run_of run_id r then rs else r ∷ rest

unfoldable pub get : String → List Run → Option Run
get run_id runs = find_func (is_run_of run_id) runs

unfoldable pub count : List Run → ℕ
count runs = length runs

-- The ids of `active`, all with the status running.
unfoldable pub active : List Run → List String
active [] = []
active (r ∷ rs) = let rest = active rs in if r.start_accepted then r.lease.run_id ∷ rest else rest

abbrev pub max_rejected : ℕ
max_rejected = 1024

-- `rejected.first`: whether the id is new, and the set after it.
unfoldable pub first : String → List String → Bool × List String
first run_id ids =
    if contains_func (λ i. str_eq i run_id) ids
    then (false, ids)
    else (true, run_id ∷ (if leb max_rejected (length ids) then [] else ids))

-- No id is owned twice.
abbrev pub IsUnowned : String → List Run → Type 0
IsUnowned run_id [] = Unit
IsUnowned run_id (r ∷ rs) = (is_run_of run_id r ≡ false) × IsUnowned run_id rs

abbrev pub IsSingle : List Run → Type 0
IsSingle [] = Unit
IsSingle (r ∷ rs) = IsUnowned r.lease.run_id rs × IsSingle rs

pub get-IsUnowned : (run_id : String) (rs : List Run) → get run_id rs ≡ none → IsUnowned run_id rs
unfolding get
get-IsUnowned run_id [] e = tt
get-IsUnowned run_id (r ∷ rs) e = ground (arith, get-IsUnowned run_id rs)

pub IsUnowned-get : (run_id : String) (rs : List Run) → IsUnowned run_id rs → get run_id rs ≡ none
unfolding get
IsUnowned-get run_id [] h = refl
IsUnowned-get run_id (r ∷ rs) h = ground (arith, IsUnowned-get run_id rs h.1)

pub get_id : (k : String) (rs : List Run) (run : Run) → get k rs ≡ some run → run.lease.run_id ≡ k
unfolding get
get_id k [] run e = absurd (ground (arith, e))
get_id k (r ∷ rs) run e = ground (arith, e, eq_iff r.lease.run_id k, get_id k rs run)

IsUnowned-add :
    (i : String) (run : Run) (rs : List Run)
    → IsUnowned i rs
    → is_run_of i run ≡ false
    → IsUnowned i (rs ++ run ∷ [])
IsUnowned-add i run [] h ne = (ne, tt)
IsUnowned-add i run (r ∷ rs) h ne = (h.0, IsUnowned-add i run rs h.1 ne)

pub add-IsSingle :
    (run : Run) (rs : List Run)
    → IsSingle rs
    → IsUnowned run.lease.run_id rs
    → IsSingle (add run rs)
unfolding add
add-IsSingle run [] h u = (tt, tt)
add-IsSingle run (r ∷ rs) h u = (
  IsUnowned-add r.lease.run_id run rs h.0 (
      ground (
        arith,
        eq_iff run.lease.run_id r.lease.run_id,
        eq_iff r.lease.run_id run.lease.run_id,
        u.0,
      )),
  add-IsSingle run rs h.1 u.1,
)

IsUnowned-remove : (i k : String) (rs : List Run) → IsUnowned i rs → IsUnowned i (remove k rs)
unfolding remove
IsUnowned-remove i k [] h = tt
IsUnowned-remove i k (r ∷ rs) h = ground (arith, IsUnowned-remove i k rs h.1)

pub remove-IsSingle : (k : String) (rs : List Run) → IsSingle rs → IsSingle (remove k rs)
unfolding remove
remove-IsSingle k [] h = tt
remove-IsSingle k (r ∷ rs) h =
    ground (arith, remove-IsSingle k rs h.1, IsUnowned-remove r.lease.run_id k rs h.0)

-- In a registry that owns no id twice, removing a run makes its id unknown and changes the answer for
-- no other id.
pub get-remove :
    (k j : String) (rs : List Run)
    → IsSingle rs
    → (get k (remove k rs) ≡ none) × (str_eq k j ≡ false → get j (remove k rs) ≡ get j rs)
unfolding get remove
get-remove k j [] h = (refl, λ ne. refl)
get-remove k j (r ∷ rs) h = elim (Bool-cases (is_run_of k r)) [
  | inl t ↦
      let gone : get k rs ≡ none =
        IsUnowned-get k rs (subst (λ i. IsUnowned i rs) ((eq_iff r.lease.run_id k).0 t) h.0) in
      ground (arith, t, gone, eq_iff r.lease.run_id k, eq_iff r.lease.run_id j, eq_iff k j)
  | inr f ↦ ground (arith, f, get-remove k j rs h.1)
]

-- The set of warned ids stays within its cap, and an id is new only once while it is in the set.
pub first-bounded :
    (run_id : String) (ids : List String)
    → length ids ≤ max_rejected
    → let (new, ids') = first run_id ids in
      (length ids' ≤ max_rejected)
      × (first run_id ids' ≡ (false, ids'))
      × (new ≡ not (contains_func (λ i. str_eq i run_id) ids))
unfolding first
first-bounded run_id ids h = ground (arith, eq_refl run_id)
