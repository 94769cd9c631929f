-- ===== src/Agent/Polling/Requests.antt =====
-- `workRequest`, `apply` and `delayAfter` of internal/agent/agent.go.
use omj_agent.Base.{
  ℕ, ◌+◌, ◌*◌, ◌-◌, ◌≤◌, ◌<◌, ◌≡◌, ◌⊎◌, ◌↔◌, inl, inr, true, false, min, if◌then◌else◌, ℤ, pos,
  negsuc, to_ℕ, is_positive, min_ℤ, wrap_i64, ltb_ℤ, ltb, arith, Bool-cases,
}
use omj_agent.Client.Errors.{
  ClientError, is_unauthorized, is_unsupported_protocol, is_retryable, retry_after_of,
}
use omj_agent.Client.Backoff.{Floats, Backoff, next, auth_retry_interval}
use omj_agent.Agent.Types.{Agent, Settings}
use omj_agent.Agent.Registry.{count}
use omj_agent.Agent.Terms.{seconds}
use omj_agent.Agent.Lease.Cases.{has_slot}
use omj_agent.Agent.Polling.{
  work_request, apply, AgentConfig, max_poll_wait, max_slots, delay_after, milliseconds,
}

slots_lem :
    (m : ℤ) (c : ℕ)
    → let n = min (to_ℕ m - c) max_slots in
      (n ≤ max_slots) × (0 < n → n + c ≤ to_ℕ m) × ((0 < n) ↔ (ltb_ℤ (pos c) m ≡ true))
slots_lem (pos m) c = ground arith
slots_lem (negsuc m) c = ground arith

-- The agent asks for at most 16 runs, for no more than it has slots, and for some exactly if
-- `handleLease` would find a slot free.
pub work_request-slots :
    (a : Agent)
    → let n = (work_request a).slots in
      (n ≤ max_slots)
      × (0 < n → n + count a.registry ≤ to_ℕ a.conf.max_concurrent_runs)
      × ((0 < n) ↔ (has_slot a ≡ true))
unfolding work_request
work_request-slots a = slots_lem a.conf.max_concurrent_runs (count a.registry)

-- All durations positive, and no wait for a poll longer than the most.
abbrev pub IsUsable : Settings → Type 0
IsUsable s =
    (is_positive s.heartbeat_interval ≡ true)
    × (is_positive s.flush_interval ≡ true)
    × (is_positive s.chunk_bytes ≡ true)
    × ((n : ℕ) × (s.poll_wait ≡ pos n) × (0 < n) × (n ≤ max_poll_wait))

abbrev pub IsShort : ℤ → ℕ → Type 0
IsShort z n = to_ℕ z ≤ n

scaled : (k n : ℕ) → 0 < k → 0 < n → n * k < 9223372036854775808 → wrap_i64 (n * k) ≡ pos (n * k)
scaled k n h p b = ground (arith, b)

seconds_field :
    (z d : ℤ)
    → IsShort z 9223372036
    → is_positive d ≡ true
    → is_positive (if is_positive z then seconds z else d) ≡ true
seconds_field (pos n) d h p = ground arith
seconds_field (negsuc n) d h p = p

milliseconds_field :
    (z d : ℤ)
    → IsShort z 9223372036854
    → is_positive d ≡ true
    → is_positive (if is_positive z then milliseconds z else d) ≡ true
milliseconds_field (pos n) d h p = ground arith
milliseconds_field (negsuc n) d h p = p

bytes_field : (z d : ℤ) → is_positive d ≡ true → is_positive (if is_positive z then z else d) ≡ true
bytes_field z d p = ground arith

poll_field :
    (z d : ℤ)
    → IsShort z 9223372036
    → ((n : ℕ) × (d ≡ pos n) × (0 < n) × (n ≤ max_poll_wait))
    → (n : ℕ) × ((if is_positive z then min_ℤ (seconds z) (pos max_poll_wait) else d) ≡ pos n)
      × (0 < n)
      × (n ≤ max_poll_wait)
poll_field (pos n) d h p = elim (Bool-cases (ltb 0 n)) [
  | inl t ↦ (min (n * 1000000000) max_poll_wait, ground (arith, t), ground (arith, t), omega arith)
  | inr f ↦ rw f p
]
poll_field (negsuc n) d h p = p

-- The settings stay usable whatever the server sends, missing, zero and negative values included,
-- as long as its durations fit 64 bits of nanoseconds.
pub apply-IsUsable :
    (received : AgentConfig) (s : Settings)
    → IsShort received.heartbeat_interval_seconds 9223372036
    → IsShort received.output_flush_interval_ms 9223372036854
    → IsShort received.poll_wait_seconds 9223372036
    → IsUsable s
    → IsUsable (apply received s)
unfolding apply
apply-IsUsable received s h f p u = (
  seconds_field received.heartbeat_interval_seconds s.heartbeat_interval h u.0,
  milliseconds_field received.output_flush_interval_ms s.flush_interval f u.1,
  bytes_field received.output_chunk_bytes s.chunk_bytes u.2,
  poll_field received.poll_wait_seconds s.poll_wait p u.3,
)

-- A refused credential or protocol waits five minutes and leaves the backoff alone; any other error
-- takes the next wait of the backoff, or the server's Retry-After where that is longer and the error
-- may be retried.
pub delay_after_lem :
    (fl : Floats) (random : fl.F) (err : ClientError) (b : Backoff fl)
    → let (delay, b') = delay_after fl random err b in
      let (wait, after) = next fl random b in
      ((is_unauthorized err ≡ true) ⊎ (is_unsupported_protocol err ≡ true)
        → (delay ≡ auth_retry_interval) × (b' ≡ b))
      × (is_unauthorized err ≡ false
          → is_unsupported_protocol err ≡ false
          → (b' ≡ after)
            × (wait ≤ delay)
            × (is_retryable err ≡ true → retry_after_of err ≤ delay)
            × ((delay ≡ wait) ⊎ (delay ≡ retry_after_of err)))
unfolding delay_after is_unsupported_protocol
delay_after_lem fl random err b = ground arith
