-- ===== src/Agent/Reporter/Drained.antt =====
-- What `drain` of internal/agent/reporter.go leaves behind, and that it ends.
use omj_agent.Base.{
  ℕ, suc, ◌≤◌, ◌<◌, ◌≡◌, refl, sym, ap, ◌∙◌, String, Bool, true, false, Option, none, some, List,
  [], ◌∷◌, ◌++◌, ◌==◌, leb, length, ◌⊎◌, inl, inr, arith, lookup, lookup-modify_self, subst,
  Bool-cases, Option-cases, if-intro,
}
use omj_agent.Output.Chunk.{Chunk}
use omj_agent.Output.Buffer.{
  RunOutput, Buffer, without_oldest, drop_oldest, ack_chunks, ack_up_to, next_batch, tail,
}
use omj_agent.Output.Buffer.Batches.{next_batch-IsBatch}
use omj_agent.Client.Errors.{ClientError, is_retryable}
use omj_agent.Client.Backoff.{Floats, Backoff}
use omj_agent.Client.Retry.{RetryResult, done, running, failed, retry, retry_rule}
use omj_agent.Agent.Reporter.{OutputResponse, heartbeat, accept, cancel_process}
use omj_agent.Agent.Reporter.Drain.{Link, Draining, offer, after_beat, attempt_output}

abbrev pub chunks_of : Option RunOutput → ℕ
chunks_of none = 0
chunks_of (some r) = length r.chunks

-- The chunks that the buffer holds of a run.
abbrev pub pending : String → Buffer → ℕ
pending k b = chunks_of (lookup k b.runs)

-- The first of the chunks is acknowledged.
abbrev pub Covers : List Chunk → ℕ → Type 0
Covers [] seq = Unit
Covers (c ∷ cs) seq = c.seq ≤ seq

ack_chunks-pending :
    (k : String) (seq : ℕ) (cs : List Chunk) (b : Buffer) (r : RunOutput)
    → lookup k b.runs ≡ some r
    → r.chunks ≡ cs
    → pending k (ack_chunks k seq cs b) ≤ length cs
unfolding ack_chunks drop_oldest
ack_chunks-pending k seq [] b r e same =
    let empty : pending k b ≡ 0 = ap chunks_of e ∙ ap length same in omega (arith, empty)
ack_chunks-pending k seq (c ∷ cs) b r e same = elim (Bool-cases (leb c.seq seq)) [
  | inr newer ↦
      let all : pending k b ≡ suc (length cs) = ap chunks_of e ∙ ap length same in
      rw (newer, ack_chunks) (omega (arith, all))
  | inl older ↦
      let rest =
        ack_chunks-pending k seq cs (drop_oldest k (c ∷ cs) b) (without_oldest r)
          (lookup-modify_self k without_oldest b.runs r e) (ap tail same) in
      rw (older, ack_chunks) (omega (arith, rest))
]

ack_split-pending :
    (k : String) (seq : ℕ) (b : Buffer) (r : RunOutput) (batch rest : List Chunk)
    → lookup k b.runs ≡ some r
    → r.chunks ≡ batch ++ rest
    → (length batch == 0) ≡ false
    → Covers batch seq
    → pending k (ack_chunks k seq r.chunks b) < length r.chunks
unfolding ack_chunks drop_oldest
ack_split-pending k seq b r [] rest e split some_chunk covers = absurd (ground (arith, some_chunk))
ack_split-pending k seq b r (c ∷ cs) rest e split some_chunk covers =
    let fewer =
      ack_chunks-pending k seq (cs ++ rest) (drop_oldest k (c ∷ (cs ++ rest)) b) (without_oldest r)
        (lookup-modify_self k without_oldest b.runs r e) (ap tail split) in
    let older : leb c.seq seq ≡ true = ground (arith, covers) in
    rw (split, older, ack_chunks) (omega (arith, fewer))

-- An acknowledgement of the first chunk of a batch leaves fewer chunks.
ack_up_to-pending :
    (k : String) (seq : ℕ) (b : Buffer)
    → (length (next_batch k b) == 0) ≡ false
    → Covers (next_batch k b) seq
    → pending k (ack_up_to k seq b) < pending k b
unfolding ack_up_to next_batch
ack_up_to-pending k seq b some_chunk covers = elim (Option-cases (lookup k b.runs)) [
  | inl e ↦ absurd (ground (arith, e, some_chunk))
  | inr (r, e) ↦
      let batch = next_batch-IsBatch k b r e in
      let fewer =
        ack_split-pending k seq b r (next_batch k b) batch.rest e batch.split some_chunk covers in
      let all : pending k b ≡ length r.chunks = ap chunks_of e in
      rw (e, ack_up_to) (omega (arith, fewer, all))
]

split-pending :
    (r : RunOutput) (batch rest : List Chunk)
    → r.chunks ≡ batch ++ rest
    → (length batch == 0) ≡ false
    → 0 < length r.chunks
split-pending r [] rest split some_chunk = absurd (ground (arith, some_chunk))
split-pending r (c ∷ cs) rest split some_chunk =
    let all : length r.chunks ≡ suc (length (cs ++ rest)) = ap length split in omega (arith, all)

-- Where there is a batch, there are chunks.
pub next_batch-pending :
    (k : String) (b : Buffer) → (length (next_batch k b) == 0) ≡ false → 0 < pending k b
unfolding next_batch
next_batch-pending k b some_chunk = elim (Option-cases (lookup k b.runs)) [
  | inl e ↦ absurd (ground (arith, e, some_chunk))
  | inr (r, e) ↦
      let batch = next_batch-IsBatch k b r e in
      let positive = split-pending r (next_batch k b) batch.rest batch.split some_chunk in
      let all : pending k b ≡ length r.chunks = ap chunks_of e in omega (arith, positive, all)
]

module _ (fl : Floats) (run_id : String) (has_process : Bool) where
  heartbeat-buffer :
      (answer : ClientError ⊎ Bool) (p : Draining fl run_id has_process)
      → (heartbeat fl run_id has_process answer p).0.buffer ≡ p.buffer
  unfolding heartbeat cancel_process
  heartbeat-buffer (inl err) p = ground arith
  heartbeat-buffer (inr wanted) p = ground arith

  accept-buffer :
      (response : OutputResponse) (p : Draining fl run_id has_process)
      → (accept fl run_id has_process response p).buffer
        ≡ ack_up_to run_id response.last_output_seq p.buffer
  unfolding accept cancel_process
  accept-buffer response p = ground arith

  -- A call leaves the buffer alone, or the server has answered it and the answer is taken over.
  abbrev Attempted :
      ClientError ⊎ OutputResponse
      → Buffer
      → Draining fl run_id has_process × Option ClientError
      → Type 0
  Attempted answer b r =
      ((err : ClientError) × (r.1 ≡ some err) × (r.0.buffer ≡ b))
      ⊎ ((response : OutputResponse) × (r.1 ≡ none)
          × (answer ≡ inr response)
          × (r.0.buffer ≡ ack_up_to run_id response.last_output_seq b))

  offer-Attempted :
      (batch : List Chunk) (answer : ClientError ⊎ OutputResponse)
      (p : Draining fl run_id has_process)
      → Attempted answer p.buffer (offer fl run_id has_process batch answer p)
  unfolding offer
  offer-Attempted batch (inl err) p = inl (err, refl, ground arith)
  offer-Attempted batch (inr response) p = inr (response, refl, refl, accept-buffer response _)

  after_beat-Attempted :
      (batch : List Chunk) (answer : ClientError ⊎ OutputResponse) (b : Buffer)
      (r : Draining fl run_id has_process × Option ClientError)
      → r.0.buffer ≡ b
      → Attempted answer b (after_beat fl run_id has_process batch answer r)
  unfolding after_beat
  after_beat-Attempted batch answer b (p, some err) same = inl (err, refl, same)
  after_beat-Attempted batch answer b (p, none) same =
      subst (λ x. Attempted answer x (offer fl run_id has_process batch answer p)) same
        (offer-Attempted batch answer p)

  module _ (l : Link fl run_id has_process) (k : ℕ) where
    attempt_output-Attempted :
        (batch : List Chunk) (i : ℕ) (p : Draining fl run_id has_process)
        → Attempted
            (l.append k i batch)
            p.buffer
            (attempt_output fl run_id has_process l k batch i p)
    unfolding attempt_output
    attempt_output-Attempted batch i p =
        if-intro (Attempted (l.append k i batch) p.buffer) p.disconnected
          (λ down.
            after_beat-Attempted batch (l.append k i batch) p.buffer _
              (heartbeat-buffer (l.beat k i) p))
          (λ up. offer-Attempted batch (l.append k i batch) p)

    -- How the attempts of a round end, which began with the buffer `b`.
    abbrev pub Ended : Buffer → RetryResult → Draining fl run_id has_process → Type 0
    Ended b done p = pending run_id p.buffer < pending run_id b
    Ended b (failed err) p = (is_retryable err ≡ false) ⊎ (l.stopped k ≡ true)
    Ended b running p = Unit

    module _ (b : Buffer)
        (acks : (i : ℕ) (response : OutputResponse)
          → l.append k i (next_batch run_id b) ≡ inr response
          → Covers (next_batch run_id b) response.last_output_seq)
        (stops : (i d : ℕ) (err : ClientError) → l.sleep k i d ≡ some err → l.stopped k ≡ true)
        (some_chunk : (length (next_batch run_id b) == 0) ≡ false) where
      -- An attempt that succeeds has had chunks acknowledged.
      accepted-fewer :
          (i : ℕ) (p : Draining fl run_id has_process)
          → p.buffer ≡ b
          → let r = attempt_output fl run_id has_process l k (next_batch run_id b) i p in
            r.1 ≡ none → pending run_id r.0.buffer < pending run_id b
      accepted-fewer i p same e = elim (attempt_output-Attempted (next_batch run_id b) i p) [
        | inl (err, f, kept) ↦ absurd (ground (arith, e, f))
        | inr (response, f, a, acked) ↦
            subst (λ x. pending run_id x < pending run_id b)
              (sym (acked ∙ ap (ack_up_to run_id response.last_output_seq) same))
              (ack_up_to-pending run_id response.last_output_seq b some_chunk (acks i response a))
      ]

      failed-kept :
          (i : ℕ) (p : Draining fl run_id has_process) (err : ClientError)
          → p.buffer ≡ b
          → let r = attempt_output fl run_id has_process l k (next_batch run_id b) i p in
            r.1 ≡ some err → r.0.buffer ≡ b
      failed-kept i p err same e = elim (attempt_output-Attempted (next_batch run_id b) i p) [
        | inl (err', f, kept) ↦ kept ∙ same
        | inr (response, f, a, acked) ↦ absurd (ground (arith, e, f))
      ]

      pub round-Ended :
          (fuel i : ℕ) (f : Backoff fl) (p : Draining fl run_id has_process)
          → p.buffer ≡ b
          → let r =
              retry fl
                (l.random k)
                (attempt_output fl run_id has_process l k (next_batch run_id b))
                (l.sleep k)
                fuel
                i
                f
                p in
            Ended b r.result r.state
      round-Ended =
          retry_rule fl (l.random k)
            (attempt_output fl run_id has_process l k (next_batch run_id b)) (l.sleep k)
            (λ _ _ _ p r. p.buffer ≡ b → Ended b r.result r.state) (λ i f p same. tt)
            (λ fuel i f p e same. accepted-fewer i p same e)
            (λ fuel i f p err e final same. inl final)
            (λ fuel i f p err stop e t z same. inr (stops i _ stop z))
            (λ fuel i f p err r e t z rest same. rest (failed-kept i p err same e))
