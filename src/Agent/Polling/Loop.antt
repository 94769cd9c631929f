-- ===== src/Agent/Polling/Loop.antt =====
-- The poll loop of internal/agent/agent.go, a round for each request for work.
pub mod Orderly
use omj_agent.Base.{
  ℕ, suc, String, Bool, true, false, not, Option, none, some, List, [], ◌∷◌, ◌++◌, ◌⊎◌, inl, inr,
  if◌then◌else◌, is_some, str_eq, ◌||◌,
}
use omj_agent.Client.Errors.{ClientError}
use omj_agent.Client.Backoff.{Floats, Backoff, reset}
use omj_agent.Agent.Types.{RunLease, Agent, Event}
use omj_agent.Agent.Lease.{Outside, handle_lease}
use omj_agent.Agent.Discoveries.{Discoveries, discover_if_asked}
use omj_agent.Agent.Polling.{AgentConfig, apply, delay_after, cancel}

-- `protocol.WorkResponse`
pub record WorkResponse : Type 0 where
  pub config : AgentConfig
  pub discovery_requested : Bool
  pub cancel_run_ids : List String
  pub runs : List RunLease

-- `cancelled[id]`
abbrev pub is_listed : String → List String → Bool
is_listed run_id [] = false
is_listed run_id (id ∷ ids) = str_eq id run_id || is_listed run_id ids

module _ (fl : Floats) where
  -- What a round meets: the server's answer; whether the context has ended when the answer is an
  -- error; the wait; and what each lease meets, by its place in the answer.
  pub record Round : Type 0 where
    pub answer : ClientError ⊎ WorkResponse
    pub ended : Bool
    pub random : fl.F
    pub sleep : ℕ → Option ClientError
    pub outside : ℕ → Outside fl

  -- What the loop changes, with the calls that were made.
  pub record Polled : Type 0 where
    pub agent : Agent
    pub discoveries : Discoveries
    pub backoff : Backoff fl
    pub calls : List Event

  -- Calls before those that follow.
  abbrev pub before : List Event → Option (Agent × List Event) → Option (Agent × List Event)
  before es none = none
  before es (some (a, es')) = some (a, es ++ es')

  -- The leases of an answer; none if the attempts of a start run out.
  unfoldable pub handle_leases :
      (ℕ → Outside fl) → ℕ → List String → ℕ → List RunLease → Agent → Option (Agent × List Event)
  handle_leases w tries ids i [] a = some (a, [])
  handle_leases w tries ids i (lease ∷ leases) a =
      elim (handle_lease fl (w i) tries lease (is_listed lease.run_id ids) a) [
        | none ↦ none
        | some (a', es) ↦ before es (handle_leases w tries ids (suc i) leases a')
      ]

  -- `a.cancel` on the agent's registry.
  abbrev pub cancel_runs : List String → Agent → Agent
  cancel_runs ids a = record a { registry = (cancel ids a.registry).0 }

  -- The part of a round that follows an answer: up to the leases, and after them.
  abbrev pub before_leases : WorkResponse → Agent → Agent
  before_leases work a =
      cancel_runs work.cancel_run_ids (record a { settings = apply work.config a.settings })

  abbrev pub after_leases : WorkResponse → Polled → Option (Agent × List Event) → Option Polled
  after_leases work s none = none
  after_leases work s (some (a, es)) = some (record {
    agent = a;
    discoveries = discover_if_asked work.discovery_requested s.discoveries;
    backoff = reset fl s.backoff;
    calls = s.calls ++ (cancel work.cancel_run_ids s.agent.registry).1 ++ es;
  })

  unfoldable pub take_work : (ℕ → Outside fl) → ℕ → WorkResponse → Polled → Option Polled
  take_work w tries work s =
      after_leases work s
        (handle_leases w tries work.cancel_run_ids 0 work.runs (before_leases work s.agent))

  abbrev pub goes_on : Option Polled → Option (Polled × Bool)
  goes_on none = none
  goes_on (some s) = some (s, true)

  -- A round, and whether the loop goes on.
  unfoldable pub poll_round : ℕ → Round → Polled → Option (Polled × Bool)
  poll_round tries round s = elim round.answer [
    | inl err ↦
        let (delay, backoff) = delay_after fl round.random err s.backoff in
        some (
          if round.ended
          then (s, false)
          else (record s { backoff = backoff }, not (is_some (round.sleep delay))))
    | inr work ↦ goes_on (take_work round.outside tries work s)
  ]

  -- The loop, until a round ends it or the context has ended, which is the end of the list.
  unfoldable pub poll : ℕ → List Round → Polled → Option Polled
  poll tries [] s = some s
  poll tries (round ∷ rounds) s = elim (poll_round tries round s) [
    | none ↦ none
    | some (s', on) ↦ let rest = poll tries rounds s' in if on then rest else some s'
  ]
