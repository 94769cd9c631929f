-- ===== src/Output/Buffer/Adding.antt =====
-- `Add` of internal/output/buffer.go as a whole.
use omj_agent.Base.{
  ℕ, suc, ◌+◌, ◌≡◌, ◌⊎◌, refl, ◌∙◌, String, true, ◌&&◌, some, [], ◌∷◌, ◌++◌, append-nil, arith, ltb,
  leb, lookup, str_eq, HasDistinctKeys-modify, lookup-modify, Bool-cases, inl, inr, drop,
  if◌then◌else◌,
}
use omj_agent.Output.Chunk.{Chunk, size_of}
use omj_agent.Output.Buffer.{
  RunOutput, Runs, Buffer, with_run, mark_truncated, append_chunk, make_room, chunk_count, keep,
  add,
}
use omj_agent.Output.Buffer.Sizes.{
  IsCounted, IsValid, AllRuns-modify, sum_runs-modify, IsCounted-append_chunk,
}
use omj_agent.Output.Buffer.Largest.{IsVisit}
use omj_agent.Output.Buffer.Eviction.{make_room-IsValid, make_room_ends}
use omj_agent.Output.Buffer.Loss.{
  Entry, make_room-Entry, with_run-lookup, with_run-own, with_run-IsValid,
}

-- The state of `Add` after its loop.
abbrev roomy : (ℕ → Runs → Runs) → Chunk → Buffer → Buffer
roomy visit c b =
    let b' = record b { runs = with_run c.run_id b.runs } in
    make_room visit (suc (chunk_count b'.runs)) 0 (size_of c) b'

keep-IsValid :
    (c : Chunk) (b : Buffer) (r : RunOutput)
    → lookup c.run_id b.runs ≡ some r
    → IsValid b
    → IsValid (keep c b)
unfolding keep
keep-IsValid c b r held v = elim (Bool-cases (ltb b.global_cap (b.size + size_of c))) [
  | inl over ↦ rw over (record {
    distinct = HasDistinctKeys-modify _ _ _ v.distinct;
    counted = AllRuns-modify IsCounted _ mark_truncated _ (λ x h. h) v.counted;
    sized = omega (arith, sum_runs-modify (λ x. x.bytes) c.run_id mark_truncated b.runs r held);
    within = v.within;
  })
  | inr fits ↦ rw fits (record {
    distinct = HasDistinctKeys-modify _ _ _ v.distinct;
    counted = AllRuns-modify IsCounted _ (append_chunk c) _ (IsCounted-append_chunk c) v.counted;
    sized =
        unfold append_chunk in
        omega (arith, sum_runs-modify (λ x. x.bytes) c.run_id (append_chunk c) b.runs r held);
    within = ground arith;
  })
]

module _ (visit : ℕ → Runs → Runs) (visits : IsVisit visit) (c : Chunk) (b : Buffer) where
  roomy-IsValid : IsValid b → IsValid (roomy visit c b)
  roomy-IsValid v = make_room-IsValid visit visits _ _ _ _ (with_run-IsValid c.run_id b v)

  roomy-Entry :
      (j : String) (r : RunOutput)
      → IsValid b
      → lookup j (with_run c.run_id b.runs) ≡ some r
      → Entry j r (roomy visit c b)
  roomy-Entry j r v e = make_room-Entry visit visits _ _ _ _ j r (record {
    distinct = (with_run-IsValid c.run_id b v).distinct;
    now = r;
    found = e;
    keeps = record { lost = 0; rest = refl; flagged = inl refl; still = λ h. h };
  })

  -- `Add` keeps the counts exact and the total within the global cap.
  pub add-IsValid : IsValid b → IsValid (add visit c b)
  unfolding add
  add-IsValid v =
      let (r, e) = with_run-own c.run_id b.runs in
      let entry = roomy-Entry c.run_id r v e in
      keep-IsValid c _ entry.now entry.found (roomy-IsValid v)

  -- The test at the end of `Add` refuses a chunk only if it exceeds the cap by itself.
  roomy_fits :
      IsValid b
      → ltb (roomy visit c b).global_cap ((roomy visit c b).size + size_of c)
        ≡ ltb b.global_cap (size_of c)
  roomy_fits v =
      let (same, ends) =
        make_room_ends visit visits (size_of c) (suc (chunk_count (with_run c.run_id b.runs))) 0 _
          (with_run-IsValid c.run_id b v) (omega arith) in
      ground arith

-- What `Add` may make of the entry of a run.
pub record Outcome (c : Chunk) (cap : ℕ) (j : String) (r₀ : RunOutput) (b : Buffer) : Type 0 where
  pub now : RunOutput
  pub found : lookup j b.runs ≡ some now
  pub lost : ℕ
  pub chunks :
      now.chunks
      ≡ drop lost r₀.chunks ++ (if str_eq c.run_id j && leb (size_of c) cap then c ∷ [] else [])
  pub flagged : (lost ≡ 0) ⊎ (now.truncated ≡ true)
  pub refused : (str_eq c.run_id j && ltb cap (size_of c)) ≡ true → now.truncated ≡ true

keep-Outcome :
    (c : Chunk) (b : Buffer) (cap : ℕ) (j : String) (r₀ : RunOutput)
    → ltb b.global_cap (b.size + size_of c) ≡ ltb cap (size_of c)
    → Entry j r₀ b
    → Outcome c cap j r₀ (keep c b)
unfolding keep append_chunk
keep-Outcome c b cap j r₀ test e = elim (Bool-cases (ltb cap (size_of c))) [
  | inl over ↦
      let over' = test ∙ over in
      record {
        now = if str_eq c.run_id j then mark_truncated e.now else e.now;
        found = rw (over', keep) (lookup-modify c.run_id j mark_truncated b.runs e.now e.found);
        lost = e.keeps.lost;
        chunks = ground (arith, append-nil (drop e.keeps.lost r₀.chunks));
        flagged = ground (arith, e.keeps.flagged);
        refused = λ h. ground arith;
      }
  | inr fits ↦
      let fits' = test ∙ fits in
      record {
        now = if str_eq c.run_id j then append_chunk c e.now else e.now;
        found = rw (fits', keep) (lookup-modify c.run_id j (append_chunk c) b.runs e.now e.found);
        lost = e.keeps.lost;
        chunks = ground (arith, append-nil (drop e.keeps.lost r₀.chunks));
        flagged = ground (arith, e.keeps.flagged);
        refused = λ h. ground arith;
      }
]

module _ (visit : ℕ → Runs → Runs) (visits : IsVisit visit) (c : Chunk) (b : Buffer) where
  -- After `Add` a run that was in the buffer has what it had, less its oldest `lost` chunks, and
  -- then the new chunk, if it is of that run and by itself within the cap. Where chunks were lost,
  -- or the new one was refused, the run is flagged as truncated.
  pub add-Outcome :
      (j : String) (r : RunOutput)
      → IsValid b
      → lookup j b.runs ≡ some r
      → Outcome c b.global_cap j r (add visit c b)
  unfolding add
  add-Outcome j r v e =
      keep-Outcome c (roomy visit c b) b.global_cap j r (roomy_fits visit visits c b v)
        (roomy-Entry visit visits c b j r v (with_run-lookup c.run_id j b.runs r e))
