-- ===== src/Output/Examples.antt =====
-- The theorems about internal/output at concrete inputs, and a few runs of its code.
use mathlib.Core.List.Perm
use omj_agent.Base.{
  ℕ, ◌≡◌, refl, String, false, some, none, List, [], ◌∷◌, ◌++◌, arith, pos, lookup,
}
use omj_agent.Output.Chunk.{Chunk, stdout, stderr}
use omj_agent.Output.Buffer.{
  Buffer, RunOutput, Runs, new_buffer, add, next_batch, ack_up_to, largest_run, make_room,
  batch_from, keep, append_chunk, evict, drop_oldest, with_run, largest_from,
}
use omj_agent.Output.Buffer.Sizes.{IsValid}
use omj_agent.Output.Buffer.Largest.{IsVisit}
use omj_agent.Output.Buffer.Adding.{Outcome, add-Outcome}
use omj_agent.Output.Buffer.Batches.{IsBatch, next_batch-IsBatch}
use omj_agent.Output.Buffer.Acknowledged.{ack_up_to-next_batch}
use omj_agent.Output.Buffer.History.{adds, acks, forgets, run_calls-new-IsValid}
use omj_agent.Output.Buffer.History
use omj_agent.Output.Chunker.{new_chunker}
use omj_agent.Output.Chunker.Calls.{Call, writes, ticks, closes, run_calls, offered}
use omj_agent.Output.Chunker.Sessions.{Whole, run_calls-new}

abbrev chunk_of : String → ℕ → List ℕ → Chunk
chunk_of k n bytes = record { run_id = k; seq = n; stream = stdout; at = 0; payload = bytes }

abbrev first_chunk : Chunk
first_chunk = chunk_of "a" 1 (1 ∷ 2 ∷ 3 ∷ [])

abbrev second_chunk : Chunk
second_chunk = chunk_of "a" 2 (4 ∷ 5 ∷ [])

abbrev other_chunk : Chunk
other_chunk = chunk_of "b" 1 (6 ∷ 7 ∷ 8 ∷ [])

abbrev run_a : RunOutput
run_a = record { chunks = first_chunk ∷ second_chunk ∷ []; bytes = 5; truncated = false }

-- Six bytes at most, five of them held for run `a`.
abbrev held : Buffer
held = record {
  global_cap = 6;
  batch_bytes = 4;
  batch_chunks = 2;
  runs = ("a", run_a) ∷ [];
  size = 5;
}

held-IsValid : IsValid held
held-IsValid = record {
  distinct = (tt, tt);
  counted = (refl, tt);
  sized = refl;
  within = omega arith;
}

abbrev in_order : ℕ → Runs → Runs
in_order i rs = rs

in_order-IsVisit : IsVisit in_order
in_order-IsVisit i rs = Perm.refl rs

-- The chunk of `b` takes the place of the oldest one of `a`.
add_evicts : next_batch "a" (add in_order other_chunk held) ≡ second_chunk ∷ []
unfolding add next_batch batch_from keep append_chunk make_room evict drop_oldest with_run
    largest_run largest_from
add_evicts = refl

add-Outcome_example : Outcome other_chunk 6 "a" run_a (add in_order other_chunk held)
add-Outcome_example =
    add-Outcome in_order in_order-IsVisit other_chunk held "a" run_a held-IsValid refl

run_calls-new-IsValid_example : IsValid (
    History.run_calls
      (new_buffer (record { global_cap = pos 4; batch_bytes = pos 0; batch_chunks = pos 1 }))
      (adds in_order first_chunk ∷ adds in_order other_chunk ∷ acks "b" 1 ∷ forgets "a" ∷ []))
run_calls-new-IsValid_example =
    run_calls-new-IsValid (record { global_cap = pos 4; batch_bytes = pos 0; batch_chunks = pos 1 })
      (adds in_order first_chunk ∷ adds in_order other_chunk ∷ acks "b" 1 ∷ forgets "a" ∷ [])
      (in_order-IsVisit, (in_order-IsVisit, (tt, (tt, tt))))

next_batch-IsBatch_example : IsBatch 4 2 0 0 none run_a.chunks (next_batch "a" held)
next_batch-IsBatch_example = next_batch-IsBatch "a" held run_a refl

ack_up_to-next_batch_example :
    (r' : RunOutput) × (lookup "a" (ack_up_to "a" 1 held).runs ≡ some r')
    × (run_a.chunks ≡ next_batch "a" held ++ r'.chunks)
ack_up_to-next_batch_example =
    ack_up_to-next_batch "a" held run_a 1 held-IsValid refl (omega arith, tt)
      (unfold next_batch batch_from in refl)

abbrev still : ℕ → ℕ
still n = 7

-- Two streams, three bytes to a chunk, five bytes at most.
abbrev session : List Call
session = writes still stdout (1 ∷ 2 ∷ []) ∷ writes still stderr (3 ∷ 4 ∷ 5 ∷ 6 ∷ []) ∷ ticks ∷ []

run_calls-new_example :
    Whole "a" 3
      (pos 5)
      (offered session)
      (run_calls (new_chunker "a" (pos 3) (pos 5)) (session ++ closes ∷ [])).0
      (run_calls (new_chunker "a" (pos 3) (pos 5)) (session ++ closes ∷ [])).1
run_calls-new_example = run_calls-new "a" (pos 3) (pos 5) session
