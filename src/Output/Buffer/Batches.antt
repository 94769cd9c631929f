-- ===== src/Output/Buffer/Batches.antt =====
-- `NextBatch` of internal/output/buffer.go.
use omj_agent.Base.{
  ℕ, ◌+◌, ◌≤◌, ◌<◌, ◌≡◌, ◌≢◌, ◌⊎◌, refl, ap, String, true, false, ◌&&◌, Option, none, some, List,
  [], ◌∷◌, ◌++◌, arith, ltb, ◌==◌, lookup, Bool-cases, inl, inr, length,
}
use omj_agent.Output.Chunk.{Chunk, size_of}
use omj_agent.Output.Buffer.{RunOutput, Buffer, is_gap, batch_from, next_batch}
use omj_agent.Output.Buffer.Sizes.{payload_bytes}

-- Each chunk's number follows the one before it.
abbrev pub IsContiguous : Option ℕ → List Chunk → Type 0
IsContiguous prev [] = Unit
IsContiguous prev (c ∷ cs) = (is_gap prev c.seq ≡ false) × IsContiguous (some c.seq) cs

abbrev pub last_seq : Option ℕ → List Chunk → Option ℕ
last_seq prev [] = prev
last_seq prev (c ∷ cs) = last_seq (some c.seq) cs

-- Why a batch stops before the chunk `c`.
abbrev pub Stops : ℕ → ℕ → ℕ → ℕ → Option ℕ → List Chunk → List Chunk → Type 0
Stops batch_bytes batch_chunks n bytes prev batch [] = Unit
Stops batch_bytes batch_chunks n bytes prev batch (c ∷ cs) =
    (n + length batch ≡ batch_chunks)
    ⊎ ((is_gap (last_seq prev batch) c.seq ≡ true)
        ⊎ ((0 < n + length batch) × (batch_bytes < bytes + payload_bytes batch + size_of c)))

-- A batch of the chunks `cs`, when `n` chunks of `bytes` bytes that end in `prev` are taken.
pub record IsBatch (batch_bytes batch_chunks n bytes : ℕ) (prev : Option ℕ) (cs batch : List Chunk)
    : Type 0 where
  pub rest : List Chunk
  pub split : cs ≡ batch ++ rest
  pub contiguous : IsContiguous prev batch
  pub count : n + length batch ≤ batch_chunks
  pub fits : (n + length batch ≤ 1) ⊎ (bytes + payload_bytes batch ≤ batch_bytes)
  pub stops : Stops batch_bytes batch_chunks n bytes prev batch rest

module _ (mb mc : ℕ) where
  stop_here :
      (n bytes : ℕ) (prev : Option ℕ) (cs : List Chunk)
      → n ≤ mc
      → (n ≤ 1) ⊎ (bytes ≤ mb)
      → Stops mb mc n bytes prev [] cs
      → IsBatch mb mc n bytes prev cs []
  stop_here n bytes prev cs h f s = record {
    rest = cs;
    split = refl;
    contiguous = tt;
    count = omega arith;
    fits = ground arith;
    stops = s;
  }

  Stops-cons :
      (n bytes : ℕ) (prev : Option ℕ) (c : Chunk) (batch rest : List Chunk)
      → Stops mb mc (n + 1) (bytes + size_of c) (some c.seq) batch rest
      → Stops mb mc n bytes prev (c ∷ batch) rest
  Stops-cons n bytes prev c batch [] s = tt
  Stops-cons n bytes prev c batch (x ∷ xs) s = ground arith

  go_on :
      (n bytes : ℕ) (prev : Option ℕ) (c : Chunk) (cs batch : List Chunk)
      → is_gap prev c.seq ≡ false
      → IsBatch mb mc (n + 1) (bytes + size_of c) (some c.seq) cs batch
      → IsBatch mb mc n bytes prev (c ∷ cs) (c ∷ batch)
  go_on n bytes prev c cs batch g b = record {
    rest = b.rest;
    split = ap (◌∷◌ c) b.split;
    contiguous = (g, b.contiguous);
    count = omega (arith, b.count);
    fits = ground (arith, b.fits);
    stops = Stops-cons n bytes prev c batch b.rest b.stops;
  }

  batch_from-IsBatch :
      (n bytes : ℕ) (prev : Option ℕ) (cs : List Chunk)
      → n ≤ mc
      → (n ≤ 1) ⊎ (bytes ≤ mb)
      → IsBatch mb mc n bytes prev cs (batch_from mb mc n bytes prev cs)
  unfolding batch_from
  batch_from-IsBatch n bytes prev [] h f = stop_here n bytes prev [] h f tt
  batch_from-IsBatch n bytes prev (c ∷ cs) h f = elim (Bool-cases (n == mc)) [
    | inl full ↦ rw full (stop_here n bytes prev (c ∷ cs) h f (inl (ground arith)))
    | inr room ↦ elim (Bool-cases (is_gap prev c.seq)) [
      | inl gap ↦ rw (room, gap) (stop_here n bytes prev (c ∷ cs) h f (inr (inl gap)))
      | inr next ↦ elim (Bool-cases (ltb 0 n && ltb mb (bytes + size_of c))) [
        | inl over ↦
            rw (room, next, over)
              (stop_here n bytes prev (c ∷ cs) h f (inr (inr (ground arith, ground arith))))
        | inr fit ↦
            rw (room, next, fit)
              (go_on n bytes prev c cs _ next (
                batch_from-IsBatch (n + 1) (bytes + size_of c) (some c.seq) cs (ground arith)
                  (ground arith)))
      ]
    ]
  ]

-- The batch of a run is a prefix of its chunks, contiguous, within both limits unless it is one
-- chunk alone, and it ends only where the next chunk would break one of these.
pub next_batch-IsBatch :
    (k : String) (b : Buffer) (r : RunOutput)
    → lookup k b.runs ≡ some r
    → IsBatch b.batch_bytes b.batch_chunks 0 0 none r.chunks (next_batch k b)
unfolding next_batch
next_batch-IsBatch k b r e =
    rw (e, next_batch)
      (batch_from-IsBatch b.batch_bytes b.batch_chunks 0 0 none r.chunks (omega arith)
        (inl (omega arith)))

IsBatch-ne-nil :
    (mb mc : ℕ) (cs batch : List Chunk)
    → 0 < mc
    → cs ≢ []
    → IsBatch mb mc 0 0 none cs batch
    → batch ≢ []
IsBatch-ne-nil mb mc cs [] h some_chunk b e = go b.rest b.split b.stops
  where
    go : (rest : List Chunk) → cs ≡ rest → Stops mb mc 0 0 none [] rest → ⊥
    go [] split stops = some_chunk split
    go (x ∷ xs) split stops = ground arith
IsBatch-ne-nil mb mc cs (x ∷ xs) h some_chunk b e = cc

-- There is always a chunk to send while the run holds one, for a positive limit on their number.
pub next_batch-ne-nil :
    (k : String) (b : Buffer) (r : RunOutput)
    → 0 < b.batch_chunks
    → lookup k b.runs ≡ some r
    → r.chunks ≢ []
    → next_batch k b ≢ []
next_batch-ne-nil k b r h e some_chunk =
    IsBatch-ne-nil b.batch_bytes b.batch_chunks r.chunks _ h some_chunk (next_batch-IsBatch k b r e)
