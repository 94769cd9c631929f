-- ===== src/Agent/DrainExamples.antt =====
-- The theorems about `drain` of internal/agent/reporter.go at concrete inputs: a run with one chunk
-- left, whose first attempt meets a network error.
use omj_agent.Base.{ℕ, zero, suc, none, List, [], ◌∷◌, ◌⊎◌, inl, inr, true, false, pos}
use omj_agent.Output.Chunk.{Chunk, stdout}
use omj_agent.Output.Buffer.{Buffer}
use omj_agent.Client.Errors.{ClientError, fault, net_error}
use omj_agent.Client.Whole.{whole}
use omj_agent.Client.Backoff.{Backoff}
use omj_agent.Agent.Reporter.{OutputResponse, new_report}
use omj_agent.Agent.Reporter.Drain.{Link, Draining}

abbrev left_over : Buffer
left_over = record {
  global_cap = 100;
  batch_bytes = 10;
  batch_chunks = 4;
  runs =
      (
        "r",
        record {
          chunks = record { run_id = "r"; seq = 3; stream = stdout; at = 0; payload = 1 ∷ [] } ∷ [];
          bytes = 1;
          truncated = false;
        },
      )
      ∷ [];
  size = 1;
}

abbrev short_backoff : Backoff whole
short_backoff = record { minimum = pos 0; maximum = pos 0; factor = 0; jitter = 0; attempt = 0 }

abbrev first_seq : List Chunk → ℕ
first_seq [] = 0
first_seq (c ∷ cs) = c.seq

abbrev taken : List Chunk → OutputResponse
taken batch = record {
  last_output_seq = first_seq batch;
  truncated = false;
  cancel_requested = false;
}

-- The first attempt of a round fails, the next one is taken.
abbrev answer_append : ℕ → List Chunk → ClientError ⊎ OutputResponse
answer_append zero batch = inl (fault net_error)
answer_append (suc i) batch = inr (taken batch)

abbrev flaky : Link whole "r" true
flaky = record {
  beat = λ k i. inr false;
  append = λ k i batch. answer_append i batch;
  random = λ k i. 0;
  late_random = λ k. 0;
  sleep = λ k i d. none;
  stopped = λ k. false;
  meanwhile = λ k b. b;
}

abbrev last_report : Draining whole "r" true
last_report = new_report whole "r" true short_backoff left_over
