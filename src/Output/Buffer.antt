-- ===== src/Output/Buffer.antt =====
-- internal/output/buffer.go: the chunks not acknowledged yet, per run, under one global cap. The
-- map of runs is an association list. Go visits a map in an order that it chooses anew for each
-- `range`: `visit i` is the order of the i-th one.
pub mod Sizes
pub mod Largest
pub mod Eviction
pub mod Batches
pub mod Loss
pub mod Adding
pub mod Acknowledged
pub mod History
use omj_agent.Base.{
  ℕ, zero, suc, ◌+◌, ◌-◌, ◌≡◌, String, Bool, true, false, not, ◌&&◌, ◌||◌, Option, none, some, List,
  [], ◌∷◌, ◌++◌, ltb, leb, ◌==◌, if◌then◌else◌, u64, length, ℤ, positive_or, lookup, modify, delete,
  str_eq,
}
use omj_agent.Output.Chunk.{Chunk, size_of}

pub record RunOutput : Type 0 where
  pub chunks : List Chunk
  pub bytes : ℕ
  pub truncated : Bool

abbrev pub Runs : Type 0
Runs = List (String × RunOutput)

pub record Buffer : Type 0 where
  pub global_cap : ℕ
  pub batch_bytes : ℕ
  pub batch_chunks : ℕ
  pub runs : Runs
  pub size : ℕ

pub record BufferOptions : Type 0 where
  pub global_cap : ℤ
  pub batch_bytes : ℤ
  pub batch_chunks : ℤ

abbrev pub default_global_cap : ℕ
default_global_cap = 67108864

abbrev pub default_batch_bytes : ℕ
default_batch_bytes = 262144

abbrev pub default_batch_chunks : ℕ
default_batch_chunks = 64

unfoldable pub new_buffer : BufferOptions → Buffer
new_buffer o = record {
  global_cap = positive_or default_global_cap o.global_cap;
  batch_bytes = positive_or default_batch_bytes o.batch_bytes;
  batch_chunks = positive_or default_batch_chunks o.batch_chunks;
  runs = [];
  size = 0;
}

abbrev pub no_output : RunOutput
no_output = record { chunks = []; bytes = 0; truncated = false }

-- `run` makes the entry of a run on first use.
unfoldable pub with_run : String → Runs → Runs
with_run k rs = elim (lookup k rs) [ none ↦ (k, no_output) ∷ rs | some r ↦ rs ]

abbrev pub has_chunks : RunOutput → Bool
has_chunks r = elim r.chunks [ [] ↦ false | _ ∷ _ ↦ true ]

-- `largest == nil || run.bytes > largest.bytes`
abbrev pub is_larger : RunOutput → Option (String × RunOutput) → Bool
is_larger r none = true
is_larger r (some (k, l)) = ltb l.bytes r.bytes

unfoldable pub largest_from : Option (String × RunOutput) → Runs → Option (String × RunOutput)
largest_from largest [] = largest
largest_from largest ((k, r) ∷ rs) =
    largest_from (if has_chunks r && is_larger r largest then some (k, r) else largest) rs

unfoldable pub largest_run : Runs → Option (String × RunOutput)
largest_run rs = largest_from none rs

-- The size of the oldest chunk; the callers have checked that there is one.
abbrev pub oldest_size : List Chunk → ℕ
oldest_size [] = 0
oldest_size (c ∷ cs) = size_of c

abbrev pub tail : List Chunk → List Chunk
tail [] = []
tail (c ∷ cs) = cs

abbrev pub without_oldest : RunOutput → RunOutput
without_oldest r = record r { chunks = tail r.chunks; bytes = r.bytes - oldest_size r.chunks }

-- `dropOldest` on the run `k`, which holds the chunks `cs`.
unfoldable pub drop_oldest : String → List Chunk → Buffer → Buffer
drop_oldest k cs b = record b {
  runs = modify k without_oldest b.runs;
  size = b.size - oldest_size cs;
}

abbrev pub mark_truncated : RunOutput → RunOutput
mark_truncated r = record r { truncated = true }

-- One round of the loop of `Add` on the run that `largestRun` chose.
unfoldable pub evict : String → RunOutput → Buffer → Buffer
evict k r b = drop_oldest k r.chunks (record b { runs = modify k mark_truncated b.runs })

unfoldable pub append_chunk : Chunk → RunOutput → RunOutput
append_chunk c r = record r { chunks = r.chunks ++ c ∷ []; bytes = r.bytes + size_of c }

-- The `for` of `Add`, whose i-th round ranges over the map in the order `visit i`. Fuel: the
-- number of chunks, since each round drops one.
unfoldable pub make_room : (ℕ → Runs → Runs) → ℕ → ℕ → ℕ → Buffer → Buffer
make_room visit zero i size b = b
make_room visit (suc fuel) i size b = elim (ltb b.global_cap (b.size + size)) [
  | false ↦ b
  | true ↦ elim (largest_run (visit i b.runs)) [
    | none ↦ b
    | some (k, r) ↦ make_room visit fuel (suc i) size (evict k r b)
  ]
]

-- A sum over the runs.
abbrev pub sum_runs : (RunOutput → ℕ) → Runs → ℕ
sum_runs m [] = 0
sum_runs m ((k, r) ∷ rs) = m r + sum_runs m rs

abbrev pub chunk_count : Runs → ℕ
chunk_count = sum_runs (λ r. length r.chunks)

-- The end of `Add`: keep the chunk if it fits now.
unfoldable pub keep : Chunk → Buffer → Buffer
keep c b =
    if ltb b.global_cap (b.size + size_of c)
    then record b { runs = modify c.run_id mark_truncated b.runs }
    else record b { runs = modify c.run_id (append_chunk c) b.runs; size = b.size + size_of c }

unfoldable pub add : (ℕ → Runs → Runs) → Chunk → Buffer → Buffer
add visit c b =
    let b' = record b { runs = with_run c.run_id b.runs } in
    keep c (make_room visit (suc (chunk_count b'.runs)) 0 (size_of c) b')

-- `i > 0 && chunk.Seq != run.chunks[i-1].Seq+1`
abbrev pub is_gap : Option ℕ → ℕ → Bool
is_gap none seq = false
is_gap (some prev) seq = not (seq == u64 (prev + 1))

module _ (batch_bytes batch_chunks : ℕ) where
  -- The loop of `NextBatch` over the chunks left: `n` chunks of `bytes` bytes are in the batch.
  unfoldable pub batch_from : ℕ → ℕ → Option ℕ → List Chunk → List Chunk
  batch_from n bytes prev [] = []
  batch_from n bytes prev (c ∷ cs) =
      let rest = batch_from (n + 1) (bytes + size_of c) (some c.seq) cs in
      if n == batch_chunks
      then []
      else if is_gap prev c.seq
      then []
      else if ltb 0 n && ltb batch_bytes (bytes + size_of c)
      then []
      else c ∷ rest

unfoldable pub next_batch : String → Buffer → List Chunk
next_batch k b = elim (lookup k b.runs) [
  | none ↦ []
  | some r ↦ batch_from b.batch_bytes b.batch_chunks 0 0 none r.chunks
]

-- The loop of `AckUpTo` recurs on the chunks of the run.
unfoldable pub ack_chunks : String → ℕ → List Chunk → Buffer → Buffer
ack_chunks k seq [] b = b
ack_chunks k seq (c ∷ cs) b = elim (leb c.seq seq) [
  | false ↦ b
  | true ↦ ack_chunks k seq cs (drop_oldest k (c ∷ cs) b)
]

unfoldable pub ack_up_to : String → ℕ → Buffer → Buffer
ack_up_to k seq b = elim (lookup k b.runs) [ none ↦ b | some r ↦ ack_chunks k seq r.chunks b ]

unfoldable pub is_truncated : String → Buffer → Bool
is_truncated k b = elim (lookup k b.runs) [ none ↦ false | some r ↦ r.truncated ]

unfoldable pub forget : String → Buffer → Buffer
forget k b = elim (lookup k b.runs) [
  | none ↦ b
  | some r ↦ record b { runs = delete k b.runs; size = b.size - r.bytes }
]
