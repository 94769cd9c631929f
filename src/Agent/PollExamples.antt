-- ===== src/Agent/PollExamples.antt =====
-- The poll loop of internal/agent/agent.go at a concrete input: a request that fails, then one that is
-- answered with a lease.
use omj_agent.Base.{◌≡◌, refl, false, none, some, List, [], ◌∷◌, inl, inr, pos}
use omj_agent.Client.Errors.{
  fault, net_error, is_unauthorized, is_unsupported_protocol, is_retryable,
}
use omj_agent.Client.Whole.{whole}
use omj_agent.Client.Backoff.{Backoff, next, reset}
use omj_agent.Agent.Lease.Order.{IsOrderly}
use omj_agent.Agent.Discoveries.{new_discoveries, discover_if_asked}
use omj_agent.Agent.Polling.{AgentConfig, apply, delay_after, cancel, cancel_one}
use omj_agent.Agent.Polling.Loop.{
  WorkResponse, Round, Polled, handle_leases, take_work, poll_round, poll,
}
use omj_agent.Agent.Polling.Loop.Orderly.{poll-IsOrderly}
use omj_agent.Agent.Registry.{get}
use omj_agent.Agent.Samples.{lease, agent, outside, running, events}
use omj_agent.Agent.Examples.{handled, agent-IsOrderly, in_order-IsVisit}

abbrev unchanged : AgentConfig
unchanged = record {
  poll_wait_seconds = pos 0;
  heartbeat_interval_seconds = pos 0;
  output_flush_interval_ms = pos 0;
  output_chunk_bytes = pos 0;
}

abbrev work : WorkResponse
work = record {
  config = unchanged;
  discovery_requested = false;
  cancel_run_ids = "other" ∷ [];
  runs = lease ∷ [];
}

abbrev rounds : List (Round whole)
rounds =
    record {
      answer = inl (fault net_error);
      ended = false;
      random = 0;
      sleep = λ d. none;
      outside = λ i. outside;
    }
    ∷ record {
      answer = inr work;
      ended = false;
      random = 0;
      sleep = λ d. none;
      outside = λ i. outside;
    }
    ∷ []

abbrev at_rest : Backoff whole
at_rest = record { minimum = pos 0; maximum = pos 0; factor = 0; jitter = 0; attempt = 0 }

abbrev before_polling : Polled whole
before_polling = record {
  agent = agent;
  discoveries = new_discoveries;
  backoff = at_rest;
  calls = [];
}

abbrev after_polling : Polled whole
after_polling = record {
  agent = running;
  discoveries = new_discoveries;
  backoff = at_rest;
  calls = events;
}

polled : poll whole 2 rounds before_polling ≡ some after_polling
unfolding poll poll_round take_work handle_leases discover_if_asked delay_after cancel cancel_one
    get apply next reset new_discoveries is_unauthorized is_unsupported_protocol is_retryable
polled = rw handled refl

poll-IsOrderly_example : IsOrderly running
poll-IsOrderly_example =
    poll-IsOrderly whole 2 rounds before_polling after_polling
      ((λ j. in_order-IsVisit), ((λ j. in_order-IsVisit), tt)) agent-IsOrderly polled
