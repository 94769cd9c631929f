-- ===== src/Agent/LoopExamples.antt =====
-- The theorems about the loops of internal/agent at concrete inputs.
use omj_agent.Base.{some, ℕ, ◌≡◌, refl, inl, inr, true, false, List, [], ◌∷◌, arith, pos, negsuc}
use omj_agent.Output.Buffer.{Buffer}
use omj_agent.Output.Chunk.{stdout}
use omj_agent.State.{Store, is_active, corrupt, empty_contents}
use omj_agent.Client.Errors.{ClientError, fault, net_error, is_not_found}
use omj_agent.Client.Whole.{whole}
use omj_agent.Client.Backoff.{Backoff}
use omj_agent.Agent.Polling.{AgentConfig}
use omj_agent.Agent.Reporter.{Step, flush, retry_ready, heartbeat_tick, steps, new_report, Answers}
use omj_agent.Agent.Reporter.Flags.{IsLegal}
use omj_agent.Agent.Reporter.Protocol.{steps-IsLegal}
use omj_agent.Agent.Startup.{reconcile}
use omj_agent.Agent.Startup.Lost.{IsRecordedLost, reconcile-RecordedLost}
use omj_agent.Agent.Discoveries.{
  Discoveries, new_discoveries, begin, end, discover_if_asked, report, asks, Reaches, stay, after,
}
use omj_agent.Agent.Discoveries.Single.{Reaches-single}
use omj_agent.Agent.Samples.{working}

-- One setting is missing, one is out of range.
abbrev received : AgentConfig
received = record {
  poll_wait_seconds = pos 60;
  heartbeat_interval_seconds = pos 0;
  output_flush_interval_ms = negsuc 4;
  output_chunk_bytes = pos 1024;
}

abbrev fresh_backoff : Backoff whole
fresh_backoff = record { minimum = pos 0; maximum = pos 0; factor = 0; jitter = 0; attempt = 0 }

abbrev waiting_output : Buffer
waiting_output = record {
  global_cap = 100;
  batch_bytes = 10;
  batch_chunks = 4;
  runs =
      (
        "r",
        record {
          chunks = record { run_id = "r"; seq = 1; stream = stdout; at = 0; payload = 1 ∷ [] } ∷ [];
          bytes = 1;
          truncated = false;
        },
      )
      ∷ [];
  size = 1;
}

abbrev offline : Answers whole "r" true
offline = record { heartbeat = inl (fault net_error); append = inl (fault net_error); random = 0 }

abbrev online : Answers whole "r" true
online = record {
  heartbeat = inr false;
  append = inr (record { last_output_seq = 1; truncated = false; cancel_requested = true });
  random = 0;
}

-- An outage: output fails, a heartbeat fails, and after the wait both get through.
abbrev outage : List (Step whole "r" true)
outage = flush offline ∷ heartbeat_tick offline ∷ flush online ∷ retry_ready online ∷ []

steps-IsLegal_example :
    IsLegal
      (steps whole "r" true (new_report whole "r" true fresh_backoff waiting_output) outage).log
steps-IsLegal_example = steps-IsLegal whole "r" fresh_backoff waiting_output outage

abbrev left_behind : Store
left_behind = record {
  contents = record empty_contents {
    active_runs =
        record { run_id = "a"; pid = 1; pgid = 1; started_at = 3 }
        ∷ record { run_id = "b"; pid = 2; pgid = 2; started_at = 4 }
        ∷ [];
  };
  file = corrupt;
  aside = [];
}

reconcile-RecordedLost_example :
    IsRecordedLost (λ i. 10) working "a" (reconcile (λ i. 10) working left_behind)
unfolding is_active
reconcile-RecordedLost_example =
    reconcile-RecordedLost (λ i. 10) working (λ i k. omega arith) left_behind "a" (omega arith)
      (omega arith) refl

abbrev reporting : Discoveries
reporting = record { in_flight = true; unsupported = false; running = 1 }

reporting-Reaches : Reaches new_discoveries reporting
unfolding new_discoveries discover_if_asked begin
reporting-Reaches = after _ _ _ (asks new_discoveries true) (stay reporting)

-- One request, answered with a 404; then another request.
Reaches-single_example :
    (◌≡◌ {A = ℕ} 1 1)
    × ((err : ClientError) (e : Discoveries)
        → ◌≡◌ {A = ℕ} 1 1
        → is_not_found err ≡ true
        → Reaches (record (end (report false (some err) false) reporting) { running = 0 }) e
        → e.running ≡ 0)
Reaches-single_example = Reaches-single reporting reporting-Reaches
