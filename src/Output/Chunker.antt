-- ===== src/Output/Chunker.antt =====
-- internal/output/chunker.go: the bytes of a run's two streams cut into numbered chunks. An
-- operation returns the new chunker and the chunks that it handed to `receive`, in order. The
-- clock is a function of the bytes written so far, which tell the calls of `now` apart. The mutex
-- makes each operation one step; `Close` stops the ticker before its last flush.
pub mod Emits
pub mod Rounds
pub mod Writing
pub mod Calls
pub mod Sessions
use omj_agent.Base.{
  ℕ, zero, suc, ◌+◌, ◌-◌, ◌≡◌, String, Bool, true, false, not, ◌&&◌, ◌||◌, Option, none, some, List,
  [], ◌∷◌, ◌++◌, ltb, ◌==◌, if◌then◌else◌, u64, length, take, drop, min, ℤ, to_ℕ, is_positive,
  positive_or,
}
use omj_agent.Output.Chunk.{Stream, stdout, stderr, Chunk}

pub record Pending : Type 0 where
  pub stream : Stream
  pub at : ℕ
  pub payload : List ℕ

pub record Chunker : Type 0 where
  pub run_id : String
  pub chunk_bytes : ℕ
  pub max_output : ℤ
  pub pending : Pending
  pub seq : ℕ
  pub written : ℕ
  pub truncated : Bool
  pub closed : Bool

abbrev pub default_chunk_bytes : ℕ
default_chunk_bytes = 65536

-- `pending{}`: the stream and time of an empty one are not read.
abbrev pub no_pending : Pending
no_pending = record { stream = stdout; at = 0; payload = [] }

-- `NewChunker` with the options `ChunkBytes` and `MaxOutput`.
unfoldable pub new_chunker : String → ℤ → ℤ → Chunker
new_chunker run_id chunk_bytes max_output = record {
  run_id = run_id;
  chunk_bytes = positive_or default_chunk_bytes chunk_bytes;
  max_output = max_output;
  pending = no_pending;
  seq = 0;
  written = 0;
  truncated = false;
  closed = false;
}

abbrev pub same_stream : Stream → Stream → Bool
same_stream stdout stdout = true
same_stream stderr stderr = true
same_stream _ _ = false

abbrev pub pending_chunk : Chunker → Chunk
pending_chunk c = record {
  run_id = c.run_id;
  seq = u64 (c.seq + 1);
  stream = c.pending.stream;
  at = c.pending.at;
  payload = c.pending.payload;
}

unfoldable pub flush_locked : Chunker → Chunker × List Chunk
flush_locked c =
    if length c.pending.payload == 0
    then (c, [])
    else (record c { seq = u64 (c.seq + 1); pending = no_pending }, pending_chunk c ∷ [])

-- `c.maxOutput - c.written`, or 0 where that is negative.
abbrev pub remaining : Chunker → ℕ
remaining c = to_ℕ c.max_output - c.written

-- The start of a round of `Write`: what of the data the output limit leaves, and whether it cut
-- any; `none` is the early return.
unfoldable pub limit_data : Chunker → List ℕ → Option (List ℕ × Bool)
limit_data c bytes =
    if is_positive c.max_output
    then (if remaining c == 0
        then none
        else if ltb (remaining c) (length bytes)
        then some (take (remaining c) bytes, true)
        else some (bytes, false))
    else some (bytes, false)

-- Flush what another stream left.
unfoldable pub switch_stream : Stream → Chunker → Chunker × List Chunk
switch_stream s c =
    if not (length c.pending.payload == 0) && not (same_stream c.pending.stream s)
    then flush_locked c
    else (c, [])

-- `len(c.pending.data) == 0`: begin a chunk.
unfoldable pub open_pending : (ℕ → ℕ) → Stream → Chunker → Chunker
open_pending now s c =
    if length c.pending.payload == 0
    then record c { pending = record { stream = s; at = now c.written; payload = [] } }
    else c

-- `n`, the bytes that this round takes.
abbrev pub room : Chunker → List ℕ → ℕ
room c bytes = min (c.chunk_bytes - length c.pending.payload) (length bytes)

unfoldable pub append_pending : ℕ → List ℕ → Chunker → Chunker
append_pending n bytes c = record c {
  pending = record {
    stream = c.pending.stream;
    at = c.pending.at;
    payload = c.pending.payload ++ take n bytes;
  };
  written = c.written + n;
}

unfoldable pub flush_full : Chunker → Chunker × List Chunk
flush_full c = if length c.pending.payload == c.chunk_bytes then flush_locked c else (c, [])

-- The rest of a round, on the data that the limit left: the chunker, the chunks, the data left.
unfoldable pub write_round : (ℕ → ℕ) → Stream → List ℕ → Chunker → Chunker × List Chunk × List ℕ
write_round now s bytes c =
    let (c₁, out₁) = switch_stream s c in
    let c₂ = open_pending now s c₁ in
    let n = room c₂ bytes in
    let (c₃, out₂) = flush_full (append_pending n bytes c₂) in (c₃, out₁ ++ out₂, drop n bytes)

abbrev pub cut_off : Bool → Chunker → Chunker
cut_off cut c = record c { truncated = c.truncated || cut }

-- `for len(data) > 0`. Fuel: the number of bytes, since each round takes at least one.
unfoldable pub write_loop : (ℕ → ℕ) → ℕ → Stream → List ℕ → Chunker → Chunker × List Chunk
write_loop now zero s bytes c = (c, [])
write_loop now (suc fuel) s [] c = (c, [])
write_loop now (suc fuel) s (x ∷ xs) c = elim (limit_data c (x ∷ xs)) [
  | none ↦ (cut_off true c, [])
  | some (bytes, cut) ↦
      let (c', out, rest) = write_round now s bytes (cut_off cut c) in
      let (c'', out') = write_loop now fuel s rest c' in (c'', out ++ out')
]

unfoldable pub write : (ℕ → ℕ) → Stream → List ℕ → Chunker → Chunker × List Chunk
write now s bytes c = if c.closed then (c, []) else write_loop now (length bytes) s bytes c

-- A tick of the flush goroutine, which ends when the chunker is closed.
unfoldable pub tick : Chunker → Chunker × List Chunk
tick c = if c.closed then (c, []) else flush_locked c

-- `Close` acts once; the numbers that it returns are `seq` and `truncated`.
unfoldable pub close : Chunker → Chunker × List Chunk
close c =
    if c.closed
    then (c, [])
    else let (c', out) = flush_locked c in (record c' { closed = true }, out)
