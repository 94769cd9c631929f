-- ===== src/Config/RunAs.antt =====
-- internal/config/runas.go. `lookup` is the machine's user database: a name's uid, or none.
use omj_agent.Base.{
  ◌≡◌, ◌⊎◌, ◌↔◌, inl, inr, refl, Bool, true, false, not, Option, none, some, List, [], ◌∷◌,
  if◌then◌else◌, contains_func, arith, All, is_some, Bool-cases, ℤ, pos, is_zero,
}
use omj_agent.Text.{Text, text_eq, text_eq_iff, is_nil}

pub data RunAsError : Type 0 where
  not_a_user root_refused other_refused : Text → RunAsError

pub record RunAsUser : Type 0 where
  pub name : Text
  pub uid : ℤ
  pub err : Option RunAsError

pub record RunAsHost : Type 0 where
  pub uid : ℤ
  pub username : Text
  pub lookup : Text → Option ℤ

unfoldable pub check : RunAsHost → Text → RunAsUser
check h name = elim (h.lookup name) [
  | none ↦ record { name = name; uid = pos 0; err = some (not_a_user name) }
  | some uid ↦
      let checked : RunAsUser = record { name = name; uid = uid; err = none } in
      if is_zero h.uid
      then checked
      else if is_zero uid
      then record checked { err = some (root_refused name) }
      else record checked { err = some (other_refused name) }
]

-- The loop over the allowlist.
unfoldable pub check_all : RunAsHost → List Text → List RunAsUser
check_all h [] = []
check_all h (name ∷ names) =
    let rest = check_all h names in if text_eq name h.username then rest else check h name ∷ rest

unfoldable pub resolve_run_as : List Text → RunAsHost → List RunAsUser
resolve_run_as allowed h =
    let own : RunAsUser = record { name = h.username; uid = h.uid; err = none } in
    if not (is_nil h.username) then own ∷ check_all h allowed else check_all h allowed

-- `Err`
unfoldable pub first_err : List RunAsUser → Option RunAsError
first_err [] = none
first_err (u ∷ us) = let rest = first_err us in elim u.err [ some e ↦ some e | none ↦ rest ]

-- `Names`
unfoldable pub names_of : List RunAsUser → List Text
names_of [] = []
names_of (u ∷ us) = let rest = names_of us in if is_some u.err then rest else u.name ∷ rest

abbrev contains : Text → List Text → Bool
contains n ns = contains_func (λ m. text_eq m n) ns

check-root :
    (h : RunAsHost) (name : Text) → (is_zero h.uid ≡ false) → is_some (check h name).err ≡ true
unfolding check
check-root h name ne = ground (arith, ne)

check-name : (h : RunAsHost) (name : Text) → (check h name).name ≡ name
unfolding check
check-name h name = ground arith

check-user :
    (h : RunAsHost) (name : Text)
    → is_some (check h name).err ≡ false
    → is_some (h.lookup name) ≡ true
unfolding check
check-user h name e = ground (arith, e)

names-own :
    (h : RunAsHost) (allowed : List Text)
    → (is_zero h.uid ≡ false)
    → names_of (check_all h allowed) ≡ []
unfolding names_of check_all
names-own h [] ne = refl
names-own h (name ∷ names) ne = ground (arith, check-root h name ne, names-own h names ne)

-- Of an agent that is not root the server is told one user at most, the agent's own, whatever the
-- allowlist says.
pub names_of-own :
    (h : RunAsHost) (allowed : List Text)
    → (is_zero h.uid ≡ false)
    → names_of (resolve_run_as allowed h) ≡ (if is_nil h.username then [] else h.username ∷ [])
unfolding resolve_run_as names_of
names_of-own h allowed ne = ground (arith, names-own h allowed ne)

names-allowed :
    (h : RunAsHost) (allowed : List Text) (name : Text)
    → contains name (names_of (check_all h allowed)) ≡ true
    → (contains name allowed ≡ true) × (is_some (h.lookup name) ≡ true)
unfolding names_of check_all
names-allowed h [] name c = absurd (ground (arith, c))
names-allowed h (n ∷ ns) name c =
    ground (arith, c, check-name h n, check-user h n, names-allowed h ns name, text_eq_iff n name)

-- Each name that the server is told is the agent's own user, or stands on the allowlist and is a user
-- of the machine.
pub names_of-allowed :
    (h : RunAsHost) (allowed : List Text) (name : Text)
    → contains name (names_of (resolve_run_as allowed h)) ≡ true
    → (name ≡ h.username) ⊎ ((contains name allowed ≡ true) × (is_some (h.lookup name) ≡ true))
unfolding resolve_run_as names_of
names_of-allowed h allowed name c =
    ground (arith, c, names-allowed h allowed name, text_eq_iff h.username name)

err-own :
    (h : RunAsHost) (allowed : List Text)
    → (is_zero h.uid ≡ false)
    → (first_err (check_all h allowed) ≡ none) ↔ All (λ n. text_eq n h.username ≡ true) allowed
unfolding check_all first_err
err-own h [] ne = (λ e. tt, λ a. refl)
err-own h (n ∷ ns) ne = elim (Bool-cases (text_eq n h.username)) [
  | inl t ↦ ground (arith, t, err-own h ns ne)
  | inr f ↦ ground (arith, f, check-root h n ne)
]

-- For an agent that is not root the check of the allowlist finds no error exactly if the list names no
-- user but the agent's own.
pub first_err-own :
    (h : RunAsHost) (allowed : List Text)
    → (is_zero h.uid ≡ false)
    → (first_err (resolve_run_as allowed h) ≡ none) ↔ All (λ n. text_eq n h.username ≡ true) allowed
unfolding resolve_run_as first_err
first_err-own h allowed ne = ground (arith, err-own h allowed ne)
