-- ===== src/Output/Buffer/Eviction.antt =====
-- The loop of `Add` in internal/output/buffer.go.
use omj_agent.Base.{
  ℕ, zero, suc, ◌+◌, ◌≤◌, ◌<◌, ◌≡◌, ◌⊎◌, refl, ◌∙◌, String, true, false, some, List, [], ◌∷◌, arith,
  ltb, lookup, modify, HasDistinctKeys, HasDistinctKeys-modify, lookup-modify_self, Option-cases,
  Bool-cases, inl, inr, length,
}
use omj_agent.Output.Chunk.{Chunk}
use omj_agent.Output.Buffer.{
  RunOutput, Runs, Buffer, has_chunks, largest_run, drop_oldest, evict, mark_truncated,
  without_oldest, make_room, chunk_count, tail, sum_runs,
}
use omj_agent.Output.Buffer.Sizes.{
  IsCounted, IsValid, AllRuns-lookup, AllRuns-modify, sum_runs-modify, total_bytes-lookup,
  IsCounted-without_oldest, oldest_size-le,
}
use omj_agent.Output.Buffer.Largest.{IsVisit, largest_run-some, largest_run-none}

module _ (k : String) (r : RunOutput) (b : Buffer) (held : lookup k b.runs ≡ some r) where
  evict-marked : lookup k (modify k mark_truncated b.runs) ≡ some (mark_truncated r)
  evict-marked = lookup-modify_self k mark_truncated b.runs r held

  evict-measure :
      (m : RunOutput → ℕ)
      → m (mark_truncated r) ≡ m r
      → sum_runs m (evict k r b).runs + m r
        ≡ sum_runs m b.runs + m (without_oldest (mark_truncated r))
  unfolding evict drop_oldest
  evict-measure m same = omega (
    arith,
    sum_runs-modify m k mark_truncated b.runs r held,
    sum_runs-modify m k without_oldest (modify k mark_truncated b.runs) _ evict-marked,
  )

  pub drop_oldest-IsValid : IsValid b → IsValid (drop_oldest k r.chunks b)
  unfolding drop_oldest
  drop_oldest-IsValid v = record {
    distinct = HasDistinctKeys-modify _ _ _ v.distinct;
    counted = AllRuns-modify IsCounted k without_oldest _ IsCounted-without_oldest v.counted;
    sized = omega (
      arith,
      sum_runs-modify (λ x. x.bytes) k without_oldest b.runs r held,
      AllRuns-lookup IsCounted k b.runs r v.counted held,
      oldest_size-le r.chunks,
      total_bytes-lookup k b.runs r held,
    );
    within = omega arith;
  }

  mark-IsValid : IsValid b → IsValid (record b { runs = modify k mark_truncated b.runs })
  mark-IsValid v = record {
    distinct = HasDistinctKeys-modify _ _ _ v.distinct;
    counted = AllRuns-modify IsCounted k mark_truncated b.runs (λ x h. h) v.counted;
    sized = omega (arith, sum_runs-modify (λ x. x.bytes) k mark_truncated b.runs r held);
    within = v.within;
  }

pub evict-IsValid :
    (k : String) (r : RunOutput) (b : Buffer)
    → lookup k b.runs ≡ some r
    → IsValid b
    → IsValid (evict k r b)
unfolding evict
evict-IsValid k r b held v =
    drop_oldest-IsValid k (mark_truncated r) _ (evict-marked k r b held) (mark-IsValid k r b held v)

length-tail :
    (cs : List Chunk)
    → (elim cs [ [] ↦ false | _ ∷ _ ↦ true ]) ≡ true
    → length cs ≡ suc (length (tail cs))
length-tail [] h = cc
length-tail (c ∷ cs) h = refl

pub evict-chunk_count :
    (k : String) (r : RunOutput) (b : Buffer)
    → lookup k b.runs ≡ some r
    → has_chunks r ≡ true
    → chunk_count b.runs ≡ suc (chunk_count (evict k r b).runs)
evict-chunk_count k r b held some_chunk =
    omega
      (arith, evict-measure k r b held (λ x. length x.chunks) refl, length-tail r.chunks some_chunk)

-- The loop keeps what one eviction keeps. An eviction happens only while the chunk does not fit,
-- and takes from a run that no run with chunks exceeds.
module _ (visit : ℕ → Runs → Runs) (visits : IsVisit visit) (size : ℕ) (P : Buffer → Type 0)
    (distinct : (b : Buffer) → P b → HasDistinctKeys b.runs)
    (step : (b : Buffer) (k : String) (r : RunOutput)
      → P b
      → lookup k b.runs ≡ some r
      → has_chunks r ≡ true
      → P (evict k r b)) where
  pub make_room_rule : (fuel i : ℕ) (b : Buffer) → P b → P (make_room visit fuel i size b)
  unfolding make_room
  make_room_rule zero i b h = h
  make_room_rule (suc fuel) i b h = elim (Bool-cases (ltb b.global_cap (b.size + size))) [
    | inr fits ↦ rw (fits, make_room) h
    | inl over ↦ elim (Option-cases (largest_run (visit i b.runs))) [
      | inl e ↦ rw (over, e, make_room) h
      | inr ((k, r), e) ↦
          let (held, busy, _) =
            largest_run-some (visit i b.runs) b.runs k r (visits i b.runs) (distinct b h) e in
          rw (over, e, make_room)
            (make_room_rule fuel (suc i) (evict k r b) (step b k r h held busy))
    ]
  ]

pub make_room-IsValid :
    (visit : ℕ → Runs → Runs) (visits : IsVisit visit) (size fuel i : ℕ) (b : Buffer)
    → IsValid b
    → IsValid (make_room visit fuel i size b)
make_room-IsValid visit visits size fuel i b =
    make_room_rule visit visits size IsValid (λ b v. v.distinct)
      (λ b k r v held _. evict-IsValid k r b held v) fuel i b

evict-global_cap :
    (k : String) (r : RunOutput) (b : Buffer) → (evict k r b).global_cap ≡ b.global_cap
unfolding evict drop_oldest
evict-global_cap k r b = refl

-- With more fuel than chunks the loop ends by its own test: the chunk fits, or nothing is left.
pub make_room_ends :
    (visit : ℕ → Runs → Runs) (visits : IsVisit visit) (size fuel i : ℕ) (b : Buffer)
    → IsValid b
    → chunk_count b.runs < fuel
    → let b' = make_room visit fuel i size b in
      (b'.global_cap ≡ b.global_cap) × ((b'.size + size ≤ b'.global_cap) ⊎ (b'.size ≡ 0))
unfolding make_room
make_room_ends visit visits size zero i b v enough = absurd (omega arith)
make_room_ends visit visits size (suc fuel) i b v enough =
    elim (Bool-cases (ltb b.global_cap (b.size + size))) [
      | inr fits ↦ rw (fits, make_room) (refl, inl (ground arith))
      | inl over ↦ elim (Option-cases (largest_run (visit i b.runs))) [
        | inl e ↦
            rw (over, e, make_room)
              (
                refl,
                inr (
                    v.sized
                    ∙ largest_run-none (visit i b.runs) b.runs (visits i b.runs) v.counted e),
              )
        | inr ((k, r), e) ↦
            let (held, busy, _) =
              largest_run-some (visit i b.runs) b.runs k r (visits i b.runs) v.distinct e in
            let rest =
              make_room_ends visit visits size fuel (suc i) (evict k r b)
                (evict-IsValid k r b held v) (omega (arith, evict-chunk_count k r b held busy)) in
            rw (over, e, make_room) (rest.0 ∙ evict-global_cap k r b, rest.1)
      ]
    ]
