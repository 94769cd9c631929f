-- ===== src/Output/Buffer/Sizes.antt =====
-- The byte counts of internal/output/buffer.go, and its invariant.
use omj_agent.Base.{
  Bool-cases, inl, inr, subst, ℕ, ◌+◌, ◌-◌, ◌≤◌, ◌≡◌, String, some, List, [], ◌∷◌, ◌++◌, arith,
  lookup, modify, delete, str_eq, HasDistinctKeys,
}
use omj_agent.Output.Chunk.{Chunk, size_of}
use omj_agent.Output.Buffer.{
  RunOutput, Runs, Buffer, sum_runs, oldest_size, tail, without_oldest, append_chunk,
}

-- The bytes of a run's chunks.
abbrev pub payload_bytes : List Chunk → ℕ
payload_bytes [] = 0
payload_bytes (c ∷ cs) = size_of c + payload_bytes cs

abbrev pub IsCounted : RunOutput → Type 0
IsCounted r = r.bytes ≡ payload_bytes r.chunks

abbrev pub total_bytes : Runs → ℕ
total_bytes = sum_runs (λ r. r.bytes)

abbrev pub AllRuns : (RunOutput → Type 0) → Runs → Type 0
AllRuns P [] = Unit
AllRuns P ((k, r) ∷ rs) = P r × AllRuns P rs

-- Each run is entered once, its count is that of its chunks, the size is the sum over the runs,
-- and it is within the cap.
pub record IsValid (b : Buffer) : Type 0 where
  pub distinct : HasDistinctKeys b.runs
  pub counted : AllRuns IsCounted b.runs
  pub sized : b.size ≡ total_bytes b.runs
  pub within : b.size ≤ b.global_cap

pub payload_bytes-append :
    (xs ys : List Chunk) → payload_bytes (xs ++ ys) ≡ payload_bytes xs + payload_bytes ys
payload_bytes-append [] ys = omega arith
payload_bytes-append (x ∷ xs) ys = omega (arith, payload_bytes-append xs ys)

pub AllRuns-lookup :
    (P : RunOutput → Type 0) (k : String) (rs : Runs) (r : RunOutput)
    → AllRuns P rs
    → lookup k rs ≡ some r
    → P r
AllRuns-lookup P k [] r h e = cc
AllRuns-lookup P k ((j, x) ∷ rs) r h e = elim (Bool-cases (str_eq j k)) [
  | inl hit ↦ subst P (ground arith) h.0
  | inr miss ↦ AllRuns-lookup P k rs r h.1 (ground arith)
]

pub AllRuns-modify :
    (P : RunOutput → Type 0) (k : String) (f : RunOutput → RunOutput) (rs : Runs)
    → ((r : RunOutput) → P r → P (f r))
    → AllRuns P rs
    → AllRuns P (modify k f rs)
AllRuns-modify P k f [] pf h = tt
AllRuns-modify P k f ((j, x) ∷ rs) pf h = ground (arith, pf x h.0, AllRuns-modify P k f rs pf h.1)

pub sum_runs-modify :
    (m : RunOutput → ℕ) (k : String) (f : RunOutput → RunOutput) (rs : Runs) (r : RunOutput)
    → lookup k rs ≡ some r
    → sum_runs m (modify k f rs) + m r ≡ sum_runs m rs + m (f r)
sum_runs-modify m k f [] r e = cc
sum_runs-modify m k f ((j, x) ∷ rs) r e = ground (arith, sum_runs-modify m k f rs r)

pub total_bytes-lookup :
    (k : String) (rs : Runs) (r : RunOutput) → lookup k rs ≡ some r → r.bytes ≤ total_bytes rs
total_bytes-lookup k [] r e = cc
total_bytes-lookup k ((j, x) ∷ rs) r e = ground (arith, total_bytes-lookup k rs r)

pub total_bytes-delete :
    (k : String) (rs : Runs) (r : RunOutput)
    → lookup k rs ≡ some r
    → total_bytes (delete k rs) + r.bytes ≡ total_bytes rs
total_bytes-delete k [] r e = cc
total_bytes-delete k ((j, x) ∷ rs) r e = ground (arith, total_bytes-delete k rs r)

pub oldest_size-le : (cs : List Chunk) → oldest_size cs ≤ payload_bytes cs
oldest_size-le [] = omega arith
oldest_size-le (c ∷ cs) = omega arith

pub AllRuns-delete :
    (P : RunOutput → Type 0) (k : String) (rs : Runs) → AllRuns P rs → AllRuns P (delete k rs)
AllRuns-delete P k [] h = tt
AllRuns-delete P k ((j, x) ∷ rs) h = ground (arith, AllRuns-delete P k rs h.1)

payload_bytes-tail :
    (n : ℕ) (cs : List Chunk) → n ≡ payload_bytes cs → n - oldest_size cs ≡ payload_bytes (tail cs)
payload_bytes-tail n [] h = omega arith
payload_bytes-tail n (c ∷ cs) h = omega arith

pub IsCounted-without_oldest : (r : RunOutput) → IsCounted r → IsCounted (without_oldest r)
IsCounted-without_oldest r h = payload_bytes-tail r.bytes r.chunks h

pub IsCounted-append_chunk :
    (c : Chunk) (r : RunOutput) → IsCounted r → IsCounted (append_chunk c r)
unfolding append_chunk
IsCounted-append_chunk c r h = omega (arith, payload_bytes-append r.chunks (c ∷ []))
