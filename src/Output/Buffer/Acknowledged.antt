-- ===== src/Output/Buffer/Acknowledged.antt =====
-- `AckUpTo` and `Forget` of internal/output/buffer.go.
use omj_agent.Base.{
  ℕ, ◌≤◌, ◌<◌, ◌≡◌, refl, sym, ap, ◌∙◌, String, false, Option, none, some, List, [], ◌∷◌, ◌++◌,
  arith, leb, lookup, str_eq, Bool-cases, Option-cases, lookup-modify_self, lookup-modify_ne, subst,
  HasDistinctKeys-delete, inl, inr, if◌then◌else◌,
}
use omj_agent.Output.Chunk.{Chunk}
use omj_agent.Output.Buffer.{
  RunOutput, Buffer, without_oldest, drop_oldest, ack_chunks, ack_up_to, next_batch, forget, tail,
}
use omj_agent.Output.Buffer.Sizes.{IsValid, IsCounted, total_bytes-delete, AllRuns-delete}
use omj_agent.Output.Buffer.Eviction.{drop_oldest-IsValid}
use omj_agent.Output.Buffer.Batches.{last_seq, next_batch-IsBatch}

-- The chunks from the first one numbered above `seq`.
abbrev pub unacknowledged : ℕ → List Chunk → List Chunk
unacknowledged seq [] = []
unacknowledged seq (c ∷ cs) =
    let rest = unacknowledged seq cs in if leb c.seq seq then rest else c ∷ cs

-- Strictly rising numbers, the first above `n` if one is given.
abbrev pub IsRising : Option ℕ → List Chunk → Type 0
IsRising prev [] = Unit
IsRising none (c ∷ cs) = IsRising (some c.seq) cs
IsRising (some n) (c ∷ cs) = (n < c.seq) × IsRising (some c.seq) cs

-- Run `k` has lost the chunks numbered up to `seq` at its front, and the counts are right.
pub record Acked (k : String) (seq : ℕ) (r : RunOutput) (b : Buffer) : Type 0 where
  pub valid : IsValid b
  pub now : RunOutput
  pub found : lookup k b.runs ≡ some now
  pub chunks : now.chunks ≡ unacknowledged seq r.chunks
  pub truncated : now.truncated ≡ r.truncated

drop_oldest-lookup :
    (k : String) (c : Chunk) (cs : List Chunk) (b : Buffer) (r : RunOutput)
    → lookup k b.runs ≡ some r
    → lookup k (drop_oldest k (c ∷ cs) b).runs ≡ some (without_oldest r)
unfolding drop_oldest
drop_oldest-lookup k c cs b r e = lookup-modify_self k without_oldest b.runs r e

ack_chunks-Acked :
    (k : String) (seq : ℕ) (cs : List Chunk) (b : Buffer) (r : RunOutput)
    → IsValid b
    → lookup k b.runs ≡ some r
    → r.chunks ≡ cs
    → Acked k seq r (ack_chunks k seq cs b)
unfolding ack_chunks
ack_chunks-Acked k seq [] b r v e same = record {
  valid = v;
  now = r;
  found = e;
  chunks = rw same;
  truncated = refl;
}
ack_chunks-Acked k seq (c ∷ cs) b r v e same = elim (Bool-cases (leb c.seq seq)) [
  | inr newer ↦
      rw (newer, ack_chunks)
        (record { valid = v; now = r; found = e; chunks = rw (same, newer); truncated = refl })
  | inl older ↦
      let valid : IsValid (drop_oldest k (c ∷ cs) b) =
        subst (λ xs. IsValid (drop_oldest k xs b)) same (drop_oldest-IsValid k r b e v) in
      let rest =
        ack_chunks-Acked k seq cs (drop_oldest k (c ∷ cs) b) (without_oldest r) valid
          (drop_oldest-lookup k c cs b r e) (ap tail same) in
      rw (older, ack_chunks)
        (record {
          valid = rest.valid;
          now = rest.now;
          found = rest.found;
          chunks =
              rest.chunks
              ∙ ap (unacknowledged seq) (ap tail same)
              ∙ sym (ap (unacknowledged seq) same ∙ rw older);
          truncated = rest.truncated;
        })
]

-- `AckUpTo` takes from its run exactly the chunks at the front that are numbered up to `seq`,
-- and keeps the counts exact.
pub ack_up_to-Acked :
    (k : String) (seq : ℕ) (b : Buffer) (r : RunOutput)
    → IsValid b
    → lookup k b.runs ≡ some r
    → Acked k seq r (ack_up_to k seq b)
unfolding ack_up_to
ack_up_to-Acked k seq b r v e = rw (e, ack_up_to) (ack_chunks-Acked k seq r.chunks b r v e refl)

drop_oldest-other :
    (k j : String) (cs : List Chunk) (b : Buffer)
    → str_eq k j ≡ false
    → lookup j (drop_oldest k cs b).runs ≡ lookup j b.runs
unfolding drop_oldest
drop_oldest-other k j cs b other = lookup-modify_ne k j without_oldest b.runs other

ack_chunks-other :
    (k j : String) (seq : ℕ) (cs : List Chunk) (b : Buffer)
    → str_eq k j ≡ false
    → lookup j (ack_chunks k seq cs b).runs ≡ lookup j b.runs
unfolding ack_chunks
ack_chunks-other k j seq [] b other = refl
ack_chunks-other k j seq (c ∷ cs) b other = ground (
  arith,
  ack_chunks-other k j seq cs (drop_oldest k (c ∷ cs) b) other,
  drop_oldest-other k j (c ∷ cs) b other,
)

-- `AckUpTo` of one run leaves the entry of every other run as it was.
pub ack_up_to-other :
    (k j : String) (seq : ℕ) (b : Buffer)
    → str_eq k j ≡ false
    → lookup j (ack_up_to k seq b).runs ≡ lookup j b.runs
unfolding ack_up_to
ack_up_to-other k j seq b other = elim (Option-cases (lookup k b.runs)) [
  | inl e ↦ rw (e, ack_up_to)
  | inr (r, e) ↦ rw (e, ack_up_to) (ack_chunks-other k j seq r.chunks b other)
]

pub ack_up_to-IsValid :
    (k : String) (seq : ℕ) (b : Buffer) → IsValid b → IsValid (ack_up_to k seq b)
unfolding ack_up_to
ack_up_to-IsValid k seq b v = elim (Option-cases (lookup k b.runs)) [
  | inl e ↦ rw (e, ack_up_to) v
  | inr (r, e) ↦ rw (e, ack_up_to) (ack_chunks-Acked k seq r.chunks b r v e refl).valid
]

pub forget-IsValid : (k : String) (b : Buffer) → IsValid b → IsValid (forget k b)
unfolding forget
forget-IsValid k b v = elim (Option-cases (lookup k b.runs)) [
  | inl e ↦ rw (e, forget) v
  | inr (r, e) ↦
      rw (e, forget)
        (record {
          distinct = HasDistinctKeys-delete k b.runs v.distinct;
          counted = AllRuns-delete IsCounted k b.runs v.counted;
          sized = omega (arith, total_bytes-delete k b.runs r e);
          within = omega arith;
        })
]

IsRising-unacknowledged :
    (n : ℕ) (cs : List Chunk) → IsRising (some n) cs → unacknowledged n cs ≡ cs
IsRising-unacknowledged n [] h = refl
IsRising-unacknowledged n (c ∷ cs) h = ground arith

last_seq_rises :
    (n s : ℕ) (batch rest : List Chunk)
    → IsRising (some n) (batch ++ rest)
    → last_seq (some n) batch ≡ some s
    → n ≤ s
last_seq_rises n s [] rest h e = ground arith
last_seq_rises n s (c ∷ cs) rest h e = omega (arith, last_seq_rises c.seq s cs rest h.1 e)

unacknowledged-append :
    (n s : ℕ) (batch rest : List Chunk)
    → IsRising (some n) (batch ++ rest)
    → last_seq (some n) batch ≡ some s
    → unacknowledged s (batch ++ rest) ≡ rest
unacknowledged-append n s [] rest h e = ground (arith, IsRising-unacknowledged n rest h)
unacknowledged-append n s (c ∷ cs) rest h e =
    ground
      (arith, unacknowledged-append c.seq s cs rest h.1 e, last_seq_rises c.seq s cs rest h.1 e)

unacknowledged-batch :
    (s : ℕ) (batch rest : List Chunk)
    → IsRising none (batch ++ rest)
    → last_seq none batch ≡ some s
    → unacknowledged s (batch ++ rest) ≡ rest
unacknowledged-batch s [] rest h e = cc
unacknowledged-batch s (c ∷ cs) rest h e =
    ground (arith, unacknowledged-append c.seq s cs rest h e, last_seq_rises c.seq s cs rest h e)

-- Acknowledging a batch by the number of its last chunk takes exactly that batch off a run
-- whose chunks are in rising order, and leaves the ones behind it.
pub ack_up_to-next_batch :
    (k : String) (b : Buffer) (r : RunOutput) (s : ℕ)
    → IsValid b
    → lookup k b.runs ≡ some r
    → IsRising none r.chunks
    → last_seq none (next_batch k b) ≡ some s
    → (r' : RunOutput) × (lookup k (ack_up_to k s b).runs ≡ some r')
      × (r.chunks ≡ next_batch k b ++ r'.chunks)
ack_up_to-next_batch k b r s v e rising last =
    let batch = next_batch-IsBatch k b r e in
    let acked = ack_up_to-Acked k s b r v e in
    let left =
      acked.chunks
      ∙ ap (unacknowledged s) batch.split
      ∙ unacknowledged-batch s _ batch.rest (subst (IsRising none) batch.split rising) last in
    (acked.now, acked.found, batch.split ∙ ap (λ xs. next_batch k b ++ xs) (sym left))
