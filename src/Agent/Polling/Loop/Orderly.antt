-- ===== src/Agent/Polling/Loop/Orderly.antt =====
-- The poll loop of internal/agent/agent.go leaves the agent in order.
use omj_agent.Base.{
  ℕ, suc, ◌≡◌, refl, sym, ◌∙◌, String, Bool, Option, none, some, List, [], ◌∷◌, inl, inr, arith,
  All, Option-cases, subst, ⊎-cases, if-intro,
}
use omj_agent.Output.Buffer.Largest.{IsVisit}
use omj_agent.Client.Backoff.{Floats}
use omj_agent.Agent.Types.{RunLease, Agent, Run, Settings, Event}
use omj_agent.Agent.Registry.{IsSingle, IsUnowned, is_run_of}
use omj_agent.Agent.Lease.{Outside, handle_lease}
use omj_agent.Agent.Lease.Order.{IsOrderly, IsLaunched, processes}
use omj_agent.Agent.Lease.Orderly.{handle_lease-IsOrderly}
use omj_agent.Agent.Polling.{update, use_once, cancel_one, cancel}
use omj_agent.Agent.Polling.Cancelling.{cancel_one-runs}
use omj_agent.Agent.Polling.Loop.{
  WorkResponse, is_listed, Round, Polled, handle_leases, cancel_runs, before, before_leases,
  after_leases, goes_on, take_work, poll_round, poll,
}

update-IsUnowned :
    (i k : String) (rs : List Run) → IsUnowned i rs → IsUnowned i (update use_once k rs)
update-IsUnowned i k [] h = tt
update-IsUnowned i k (r ∷ rs) h =
    if-intro (IsUnowned i) (is_run_of k r) (λ t. h) (λ f. (h.0, update-IsUnowned i k rs h.1))

update-IsSingle : (k : String) (rs : List Run) → IsSingle rs → IsSingle (update use_once k rs)
update-IsSingle k [] h = tt
update-IsSingle k (r ∷ rs) h =
    if-intro IsSingle (is_run_of k r) (λ t. h)
      (λ f. (update-IsUnowned r.lease.run_id k rs h.0, update-IsSingle k rs h.1))

update-processes : (k : String) (rs : List Run) → processes (update use_once k rs) ≡ processes rs
update-processes k [] = refl
update-processes k (r ∷ rs) = ground (arith, update-processes k rs)

use_once-IsLaunched : (r : Run) → IsLaunched r → IsLaunched (use_once r)
use_once-IsLaunched r h = h

update-IsLaunched :
    (k : String) (rs : List Run) → All IsLaunched rs → All IsLaunched (update use_once k rs)
update-IsLaunched k [] h = tt
update-IsLaunched k (r ∷ rs) h =
    if-intro (All IsLaunched) (is_run_of k r) (λ t. (use_once-IsLaunched r h.0, h.1))
      (λ f. (h.0, update-IsLaunched k rs h.1))

-- What a cancellation leaves of the registry is in order.
record IsKept (before after : List Run) : Type 0 where
  single : IsSingle before → IsSingle after
  processes : processes after ≡ processes before
  launched : All IsLaunched before → All IsLaunched after

cancel_one-IsKept : (k : String) (rs : List Run) → IsKept rs (cancel_one k rs).0
cancel_one-IsKept k rs = elim (cancel_one-runs k rs) [
  | inl (same, _) ↦
      subst (IsKept rs) (sym same) (record { single = λ h. h; processes = refl; launched = λ h. h })
  | inr updated ↦ subst (IsKept rs) (sym updated) (record {
    single = update-IsSingle k rs;
    processes = update-processes k rs;
    launched = update-IsLaunched k rs;
  })
]

cancel-IsKept : (ids : List String) (rs : List Run) → IsKept rs (cancel ids rs).0
unfolding cancel
cancel-IsKept [] rs = record { single = λ h. h; processes = refl; launched = λ h. h }
cancel-IsKept (k ∷ ids) rs =
    let first = cancel_one-IsKept k rs in
    let rest = cancel-IsKept ids (cancel_one k rs).0 in
    record {
      single = λ h. rest.single (first.single h);
      processes = rest.processes ∙ first.processes;
      launched = λ h. rest.launched (first.launched h);
    }

cancel_runs-IsOrderly :
    (fl : Floats) (ids : List String) (a : Agent) → IsOrderly a → IsOrderly (cancel_runs fl ids a)
cancel_runs-IsOrderly fl ids a o =
    let kept = cancel-IsKept ids a.registry in
    record {
      single = kept.single o.single;
      slots = omega (arith, kept.processes, o.slots);
      launched = kept.launched o.launched;
      buffer = o.buffer;
      store = o.store;
    }

settings-IsOrderly :
    (settings : Settings) (a : Agent) → IsOrderly a → IsOrderly (record a { settings = settings })
settings-IsOrderly settings a o = record {
  single = o.single;
  slots = o.slots;
  launched = o.launched;
  buffer = o.buffer;
  store = o.store;
}

module _ (fl : Floats) where
  -- If there is an agent, it is in order.
  abbrev AllOrderly : Option (Agent × List Event) → Type 0
  AllOrderly none = Unit
  AllOrderly (some (a, es)) = IsOrderly a

  before-AllOrderly :
      (es : List Event) (o : Option (Agent × List Event))
      → AllOrderly o
      → AllOrderly (before fl es o)
  before-AllOrderly es none h = tt
  before-AllOrderly es (some (a, es')) h = h

  module _ (w : ℕ → Outside fl) (visits : (j : ℕ) → IsVisit (w j).visit) (tries : ℕ) where
    handle_leases-AllOrderly :
        (ids : List String) (i : ℕ) (leases : List RunLease) (a : Agent)
        → IsOrderly a
        → AllOrderly (handle_leases fl w tries ids i leases a)
    unfolding handle_leases
    handle_leases-AllOrderly ids i [] a o = o
    handle_leases-AllOrderly ids i (l ∷ ls) a o =
        elim (Option-cases (handle_lease fl (w i) tries l (is_listed l.run_id ids) a)) [
          | inl n ↦ rw (n, handle_leases) tt
          | inr ((a', es), s) ↦
              let o' =
                handle_lease-IsOrderly fl (w i) (visits i) tries l (is_listed l.run_id ids) a a' es
                  o s in
              rw (s, handle_leases)
                (before-AllOrderly es _ (handle_leases-AllOrderly ids (suc i) ls a' o'))
        ]

  abbrev IsPolled : Option (Polled fl × Bool) → Type 0
  IsPolled none = Unit
  IsPolled (some (s, on)) = IsOrderly s.agent

  after_leases-IsPolled :
      (work : WorkResponse) (s : Polled fl) (o : Option (Agent × List Event))
      → AllOrderly o
      → IsPolled (goes_on fl (after_leases fl work s o))
  after_leases-IsPolled work s none h = tt
  after_leases-IsPolled work s (some (a, es)) h = h

  poll_round-IsPolled :
      (tries : ℕ) (round : Round fl) (s : Polled fl)
      → ((j : ℕ) → IsVisit (round.outside j).visit)
      → IsOrderly s.agent
      → IsPolled (poll_round fl tries round s)
  unfolding poll_round take_work
  poll_round-IsPolled tries round s visits o = elim (⊎-cases round.answer) [
    | inl (err, e) ↦
        rw (e, poll_round)
          (if-intro (λ (x : Polled fl × Bool). IsOrderly x.0.agent) round.ended (λ t. o) (λ f. o))
    | inr (work, e) ↦
        rw (e, poll_round)
          (after_leases-IsPolled work s _ (
            handle_leases-AllOrderly round.outside visits tries work.cancel_run_ids 0 work.runs
              (before_leases fl work s.agent)
              (cancel_runs-IsOrderly fl work.cancel_run_ids _ (settings-IsOrderly _ s.agent o))))
  ]

  abbrev AllPolled : Option (Polled fl) → Type 0
  AllPolled none = Unit
  AllPolled (some s) = IsOrderly s.agent

  abbrev pub AllVisits : List (Round fl) → Type 0
  AllVisits = All (λ round. (j : ℕ) → IsVisit (round.outside j).visit)

  poll-AllPolled :
      (tries : ℕ) (rounds : List (Round fl)) (s : Polled fl)
      → AllVisits rounds
      → IsOrderly s.agent
      → AllPolled (poll fl tries rounds s)
  unfolding poll
  poll-AllPolled tries [] s visits o = o
  poll-AllPolled tries (round ∷ rounds) s visits o =
      elim (Option-cases (poll_round fl tries round s)) [
        | inl n ↦ rw (n, poll) tt
        | inr ((s', on), e) ↦
            let o' : IsOrderly s'.agent =
              subst IsPolled e (poll_round-IsPolled tries round s visits.0 o) in
            rw (e, poll)
              (if-intro AllPolled on (λ t. poll-AllPolled tries rounds s' visits.1 o') (λ f. o'))
      ]

  -- The agent is in order after any rounds of the poll loop that begin with it in order: whatever the
  -- server answers, however many leases and cancellations an answer holds, and whatever each lease
  -- meets.
  pub poll-IsOrderly :
      (tries : ℕ) (rounds : List (Round fl)) (s s' : Polled fl)
      → AllVisits rounds
      → IsOrderly s.agent
      → poll fl tries rounds s ≡ some s'
      → IsOrderly s'.agent
  poll-IsOrderly tries rounds s s' visits o e =
      subst AllPolled e (poll-AllPolled tries rounds s visits o)
