-- ===== src/Output/Chunker/Calls.antt =====
-- Sequences of calls of internal/output/chunker.go, and what they do together.
use omj_agent.Base.{
  ℕ, zero, suc, ◌-◌, ◌≡◌, refl, sym, ap, ◌∙◌, Bool, true, false, ◌||◌, some, take-append, List, [],
  ◌∷◌, ◌++◌, append_assoc, append-nil, arith, if◌then◌else◌, length, length-append, length-take,
  take, All, All-append, to_ℕ, is_positive,
}
use omj_agent.Output.Chunk.{Stream, Chunk}
use omj_agent.Output.Buffer.Batches.{IsContiguous, last_seq}
use omj_agent.Output.Chunker.{Chunker, remaining, cut_off, write, tick, close}
use omj_agent.Output.Chunker.Emits.{
  tag, tagged, tagged_pending, tagged-append, IsSized, Emits, IsContiguous-append, last_seq-append,
}
use omj_agent.Output.Chunker.Writing.{kept, kept-nil, overflows}

-- A call, a write with the clock during it.
pub data Call : Type 0 where
  writes : (ℕ → ℕ) → Stream → List ℕ → Call
  ticks closes : Call

unfoldable pub call : Chunker → Call → Chunker × List Chunk
call c (writes now s bytes) = write now s bytes c
call c ticks = tick c
call c closes = close c

unfoldable pub run_calls : Chunker → List Call → Chunker × List Chunk
run_calls c [] = (c, [])
run_calls c (x ∷ xs) =
    let (c', out) = call c x in let (c'', out') = run_calls c' xs in (c'', out ++ out')

-- The bytes written before the first close.
abbrev pub offered : List Call → List (Stream × ℕ)
offered [] = []
offered (writes now s bytes ∷ xs) = tag s bytes ++ offered xs
offered (ticks ∷ xs) = offered xs
offered (closes ∷ xs) = []

-- From `c` to `c'`: what was emitted and what is still pending are together what was pending and
-- the bytes that the limit let through; the chunks are numbered in sequence, of this run and
-- within the size; and the flag says whether the limit cut any bytes.
pub record Session (c c' : Chunker) (out : List Chunk) (bytes : List (Stream × ℕ)) : Type 0 where
  pub taken : tagged out ++ tagged_pending c' ≡ tagged_pending c ++ kept c bytes
  pub numbered : IsContiguous (some c.seq) out
  pub last : last_seq (some c.seq) out ≡ some c'.seq
  pub sized : All (IsSized c.run_id c.chunk_bytes) out
  pub flagged : c'.truncated ≡ (c.truncated || overflows c (length bytes))

kept-append :
    (t : Bool) (r k : ℕ) (xs ys : List (Stream × ℕ))
    → k ≡ r - length (if t then take r xs else xs)
    → (if t then take r (xs ++ ys) else xs ++ ys)
      ≡ (if t then take r xs else xs) ++ (if t then take k ys else ys)
kept-append false r k xs ys e = refl
kept-append true r k xs ys e =
    take-append r xs ys ∙ ap (λ j. take r xs ++ take j ys) (omega (arith, length-take r xs))

pub take-tag :
    (t : Bool) (r : ℕ) (s : Stream) (bytes : List ℕ)
    → tag s (if t then take r bytes else bytes) ≡ (if t then take r (tag s bytes) else tag s bytes)
take-tag false r s bytes = refl
take-tag true zero s bytes = refl
take-tag true (suc r) s [] = refl
take-tag true (suc r) s (x ∷ xs) = ap (λ l. (s, x) ∷ l) (take-tag true r s xs)

module _ (c c₁ c' : Chunker) (o out : List Chunk) (xs ys : List (Stream × ℕ))
    (step : Emits (cut_off (overflows c (length xs)) c) c₁ o (kept c xs))
    (rest : Session c₁ c' out ys) where
  kept-step : kept c (xs ++ ys) ≡ kept c xs ++ kept c₁ ys
  kept-step =
      kept-append (is_positive c.max_output) (remaining c) (to_ℕ c.max_output - c₁.written) xs ys
        (omega (arith, step.counted))
      ∙ ap (λ m. kept c xs ++ (if is_positive m then take (to_ℕ m - c₁.written) ys else ys))
          (sym step.same_limit)

  pub Session-cons : Session c c' (o ++ out) (xs ++ ys)
  Session-cons = record {
    taken =
        ap (λ r. r ++ tagged_pending c') (tagged-append o out)
        ∙ append_assoc (tagged o) (tagged out) (tagged_pending c')
        ∙ ap (λ r. tagged o ++ r) rest.taken
        ∙ sym (append_assoc (tagged o) (tagged_pending c₁) (kept c₁ ys))
        ∙ ap (λ r. r ++ kept c₁ ys) step.bytes
        ∙ append_assoc (tagged_pending c) (kept c xs) (kept c₁ ys)
        ∙ ap (λ r. tagged_pending c ++ r) (sym kept-step);
    numbered = IsContiguous-append c.seq c₁.seq o out step.numbered step.last rest.numbered;
    last = last_seq-append c.seq c₁.seq o out step.last ∙ rest.last;
    sized = All-append _ o out step.sized (rw (← step.same_run, ← step.same_size) rest.sized);
    flagged = ground (
      arith,
      ap is_positive step.same_limit,
      ap to_ℕ step.same_limit,
      step.counted,
      length-take (remaining c) xs,
      length-append xs ys,
    );
  }

pub Session-refl : (c : Chunker) → Session c c [] []
Session-refl c = record {
  taken = sym (ap (λ r. tagged_pending c ++ r) (kept-nil c) ∙ append-nil _);
  numbered = tt;
  last = refl;
  sized = tt;
  flagged = ground arith;
}
