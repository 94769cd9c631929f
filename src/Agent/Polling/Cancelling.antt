-- ===== src/Agent/Polling/Cancelling.antt =====
-- `cancel` of internal/agent/agent.go and `cancelAll` of internal/agent/signals.go.
use omj_agent.Base.{
  ◌≡◌, ◌⊎◌, inl, inr, refl, String, Bool, true, not, ◌||◌, none, some, List, [], ◌∷◌, arith, All,
  is_some, ap, ◌∙◌,
}
use omj_agent.Agent.Types.{Run}
use omj_agent.Agent.Registry.{get}
use omj_agent.Agent.Polling.{cancel_one, cancel, update, use_once}

-- Nothing to cancel: no such run, no process, or cancelled before.
abbrev is_settled : String → List Run → Bool
is_settled run_id runs = elim (get run_id runs) [
  | none ↦ true
  | some r ↦ not (is_some r.process) || r.cancel_once
]

update-settled :
    (j k : String) (runs : List Run)
    → is_settled j runs ≡ true
    → is_settled j (update use_once k runs) ≡ true
unfolding get
update-settled j k [] h = refl
update-settled j k (r ∷ rs) h = ground (arith, update-settled j k rs, h)

settled-update : (k : String) (runs : List Run) → is_settled k (update use_once k runs) ≡ true
unfolding get
settled-update k [] = refl
settled-update k (r ∷ rs) = ground (arith, settled-update k rs)

pub cancel_one-runs :
    (k : String) (runs : List Run)
    → (((cancel_one k runs).0 ≡ runs) × (is_settled k runs ≡ true))
      ⊎ ((cancel_one k runs).0 ≡ update use_once k runs)
unfolding cancel_one
cancel_one-runs k runs = ground arith

cancel_one-settles : (k : String) (runs : List Run) → is_settled k (cancel_one k runs).0 ≡ true
cancel_one-settles k runs = elim (cancel_one-runs k runs) [
  | inl (same, h) ↦ ap (is_settled k) same ∙ h
  | inr updated ↦ ap (is_settled k) updated ∙ settled-update k runs
]

cancel_one-keeps :
    (j k : String) (runs : List Run)
    → is_settled j runs ≡ true
    → is_settled j (cancel_one k runs).0 ≡ true
cancel_one-keeps j k runs h = elim (cancel_one-runs k runs) [
  | inl (same, _) ↦ ap (is_settled j) same ∙ h
  | inr updated ↦ ap (is_settled j) updated ∙ update-settled j k runs h
]

cancel_one-settled :
    (k : String) (runs : List Run) → is_settled k runs ≡ true → cancel_one k runs ≡ (runs, [])
unfolding cancel_one
cancel_one-settled k runs h = ground (arith, h)

cancel-keeps :
    (j : String) (ids : List String) (runs : List Run)
    → is_settled j runs ≡ true
    → is_settled j (cancel ids runs).0 ≡ true
unfolding cancel
cancel-keeps j [] runs h = h
cancel-keeps j (k ∷ ids) runs h =
    cancel-keeps j ids (cancel_one k runs).0 (cancel_one-keeps j k runs h)

cancel-settles :
    (ids : List String) (runs : List Run) → All (λ k. is_settled k (cancel ids runs).0 ≡ true) ids
unfolding cancel
cancel-settles [] runs = tt
cancel-settles (k ∷ ids) runs = (
  cancel-keeps k ids (cancel_one k runs).0 (cancel_one-settles k runs),
  cancel-settles ids (cancel_one k runs).0,
)

cancel-settled :
    (ids : List String) (runs : List Run)
    → All (λ k. is_settled k runs ≡ true) ids
    → cancel ids runs ≡ (runs, [])
unfolding cancel
cancel-settled [] runs h = refl
cancel-settled (k ∷ ids) runs h =
    rw (cancel_one-settled k runs h.0, cancel-settled ids runs h.1) refl

-- The server lists a run until its finish is accepted; asking again to cancel the same runs signals
-- no process a second time.
pub cancel_idem :
    (ids : List String) (runs : List Run)
    → cancel ids (cancel ids runs).0 ≡ ((cancel ids runs).0, [])
cancel_idem ids runs = cancel-settled ids (cancel ids runs).0 (cancel-settles ids runs)
