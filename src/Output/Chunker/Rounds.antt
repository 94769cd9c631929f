-- ===== src/Output/Chunker/Rounds.antt =====
-- One round of `Write` of internal/output/chunker.go.
use omj_agent.Base.{
  ℕ, ◌+◌, ◌≤◌, ◌<◌, ◌≡◌, refl, ap, ◌∙◌, List, append-nil, arith, length, length-append, length-take,
  take, drop, subst,
}
use omj_agent.Output.Chunk.{Stream}
use omj_agent.Output.Chunker.{
  Chunker, flush_locked, switch_stream, open_pending, room, append_pending, flush_full, write_round,
}
use omj_agent.Output.Chunker.Emits.{
  tag, Emits, Emits-trans, switch_stream-Emits, open_pending-Emits, append_pending-Emits,
  flush_full-Emits,
}

-- Between operations the pending bytes are fewer than a chunk.
abbrev pub IsOpen : Chunker → Type 0
IsOpen c = length c.pending.payload < c.chunk_bytes

abbrev ready : (ℕ → ℕ) → Stream → Chunker → Chunker
ready now s c = open_pending now s (switch_stream s c).0

-- The pending chunk is of the stream that is written.
ready-stream : (now : ℕ → ℕ) (s : Stream) (c : Chunker) → (ready now s c).pending.stream ≡ s
unfolding open_pending switch_stream flush_locked
ready-stream now s c = ground arith

ready-IsOpen : (now : ℕ → ℕ) (s : Stream) (c : Chunker) → IsOpen c → IsOpen (ready now s c)
unfolding open_pending switch_stream flush_locked
ready-IsOpen now s c h = ground arith

append_pending-length :
    (n : ℕ) (bytes : List ℕ) (c : Chunker)
    → n ≤ room c bytes
    → length (append_pending n bytes c).pending.payload ≡ length c.pending.payload + n
unfolding append_pending
append_pending-length n bytes c h =
    omega (arith, length-append c.pending.payload (take n bytes), length-take n bytes)

append_pending-chunk_bytes :
    (n : ℕ) (bytes : List ℕ) (c : Chunker) → (append_pending n bytes c).chunk_bytes ≡ c.chunk_bytes
unfolding append_pending
append_pending-chunk_bytes n bytes c = refl

flush_full-IsOpen :
    (c : Chunker)
    → 0 < c.chunk_bytes
    → length c.pending.payload ≤ c.chunk_bytes
    → IsOpen (flush_full c).0
unfolding flush_full flush_locked
flush_full-IsOpen c p h = ground arith

-- A round takes at least one byte, from the front of the data, for the stream that is written.
pub record Progress (now : ℕ → ℕ) (s : Stream) (bytes : List ℕ) (c : Chunker) : Type 0 where
  pub n : ℕ
  pub takes : 0 < n
  pub most : n ≤ length bytes
  pub emits :
      Emits c (write_round now s bytes c).0 (write_round now s bytes c).1 (tag s (take n bytes))
  pub rest : (write_round now s bytes c).2 ≡ drop n bytes
  pub opens : IsOpen (write_round now s bytes c).0

pub write_round-Progress :
    (now : ℕ → ℕ) (s : Stream) (bytes : List ℕ) (c : Chunker)
    → IsOpen c
    → 0 < length bytes
    → Progress now s bytes c
unfolding write_round
write_round-Progress now s bytes c h some_bytes =
    let c₂ = ready now s c in
    let n = room c₂ bytes in
    let open₂ : IsOpen c₂ = ready-IsOpen now s c h in
    let full : length (append_pending n bytes c₂).pending.payload
        ≤ (append_pending n bytes c₂).chunk_bytes =
      omega (
        arith,
        append_pending-length n bytes c₂ (omega arith),
        append_pending-chunk_bytes n bytes c₂,
      ) in
    record {
      n = n;
      takes = omega arith;
      most = omega arith;
      emits =
          subst (Emits c (flush_full (append_pending n bytes c₂)).0 _)
            (append-nil _ ∙ ap (λ x. tag x (take n bytes)) (ready-stream now s c))
            (Emits-trans (switch_stream-Emits s c (omega arith)) (
              Emits-trans (open_pending-Emits now s _) (
                Emits-trans (append_pending-Emits n bytes c₂ (omega arith))
                  (flush_full-Emits _ full))));
      rest = refl;
      opens =
          flush_full-IsOpen (append_pending n bytes c₂)
            (omega (arith, append_pending-chunk_bytes n bytes c₂)) full;
    }
