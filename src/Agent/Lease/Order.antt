-- ===== src/Agent/Lease/Order.antt =====
-- The agent of internal/agent in order, and what keeps it so.
use omj_agent.Base.{
  ℕ, suc, ◌≤◌, ◌<◌, ◌≡◌, String, true, ◌||◌, none, List, [], ◌∷◌, ltb_ℤ, pos, ℤ, to_ℕ, arith,
  if◌then◌else◌, All, All-append, is_some, negsuc,
}
use omj_agent.Protocol.{is_valid_reason}
use omj_agent.Output.Chunk.{Chunk}
use omj_agent.Output.Buffer.{Buffer, Runs}
use omj_agent.Output.Buffer.Sizes.{IsValid}
use omj_agent.Output.Buffer.Largest.{IsVisit}
use omj_agent.Output.Buffer.Adding.{add-IsValid}
use omj_agent.State.Recording.{IsBounded}
use omj_agent.Agent.Types.{Agent, Run}
use omj_agent.Agent.Registry.{add, count, IsSingle, add-IsSingle, IsUnowned}
use omj_agent.Agent.Outcomes.{has_ended}
use omj_agent.Agent.Lease.{launch, warn, receive}
use omj_agent.Agent.Lease.Cases.{has_slot}

-- A run with a process has no outcome yet; one without has one, with a reason that the protocol
-- knows if a spawn failed.
abbrev pub IsLaunched : Run → Type 0
IsLaunched run =
    ((is_some run.process || has_ended run none) ≡ true)
    × (is_some run.spawn_err ≡ true → is_valid_reason run.spawn_reason ≡ true)

abbrev pub processes : List Run → ℕ
processes [] = 0
processes (r ∷ rs) = let rest = processes rs in if is_some r.process then suc rest else rest

-- No run is owned twice, the processes fit the slots, each run has or will have an outcome, and
-- the buffer and the state file are in order.
pub record IsOrderly (a : Agent) : Type 0 where
  pub single : IsSingle a.registry
  pub slots : processes a.registry ≤ to_ℕ a.conf.max_concurrent_runs
  pub launched : All IsLaunched a.registry
  pub buffer : IsValid a.buffer
  pub store : IsBounded a.store

pub processes-le : (rs : List Run) → processes rs ≤ count rs
unfolding count
processes-le [] = omega arith
processes-le (r ∷ rs) = ground (arith, processes-le rs)

processes-add :
    (run : Run) (rs : List Run)
    → processes (add run rs) ≡ (if is_some run.process then suc (processes rs) else processes rs)
unfolding add
processes-add run [] = ground arith
processes-add run (r ∷ rs) = ground (arith, processes-add run rs)

pub receive-IsValid :
    (visit : ℕ → Runs → Runs) (cs : List Chunk) (b : Buffer)
    → IsVisit visit
    → IsValid b
    → IsValid (receive visit cs b)
receive-IsValid visit [] b ok v = v
receive-IsValid visit (c ∷ cs) b ok v = receive-IsValid visit cs _ ok (add-IsValid visit ok c b v)

pub has_room : (a : Agent) → has_slot a ≡ true → count a.registry < to_ℕ a.conf.max_concurrent_runs
has_room a e = lt_ℤ (count a.registry) a.conf.max_concurrent_runs e
  where
    lt_ℤ : (n : ℕ) (z : ℤ) → ltb_ℤ (pos n) z ≡ true → n < to_ℕ z
    lt_ℤ n (pos m) e = ground (arith, e)
    lt_ℤ n (negsuc m) e = absurd (ground (arith, e))

-- A run that is launched keeps the agent in order, if its process has a slot.
pub launch-IsOrderly :
    (run : Run) (a : Agent)
    → IsOrderly a
    → IsUnowned run.lease.run_id a.registry
    → IsLaunched run
    → (is_some run.process ≡ true → processes a.registry < to_ℕ a.conf.max_concurrent_runs)
    → IsOrderly (launch run a)
unfolding launch add
launch-IsOrderly run a o new ok room = record {
  single = add-IsSingle run a.registry o.single new;
  slots = ground (arith, processes-add run a.registry, room, o.slots);
  launched = All-append IsLaunched a.registry (run ∷ []) o.launched (ok, tt);
  buffer = o.buffer;
  store = o.store;
}

pub warn-IsOrderly : (run_id : String) (a : Agent) → IsOrderly a → IsOrderly (warn run_id a)
unfolding warn
warn-IsOrderly run_id a o = record {
  single = o.single;
  slots = o.slots;
  launched = o.launched;
  buffer = o.buffer;
  store = o.store;
}
