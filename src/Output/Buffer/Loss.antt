-- ===== src/Output/Buffer/Loss.antt =====
-- What `Add` of internal/output/buffer.go keeps and loses.
use text.Mathlib.TextPositions.{eq_refl}
use omj_agent.Base.{
  ℕ, zero, suc, ◌≡◌, ◌⊎◌, refl, ap, ◌∙◌, String, Bool, true, false, some, List, [], ◌∷◌, arith,
  lookup, str_eq, eq_iff, HasDistinctKeys, HasDistinctKeys-modify, lookup-modify, Option-cases,
  Absent-lookup, inl, inr, drop, if◌then◌else◌,
}
use omj_agent.Output.Chunk.{Chunk}
use omj_agent.Output.Buffer.{
  RunOutput, Runs, Buffer, no_output, with_run, drop_oldest, evict, mark_truncated, without_oldest,
  make_room, tail,
}
use omj_agent.Output.Buffer.Sizes.{IsValid}
use omj_agent.Output.Buffer.Largest.{IsVisit}
use omj_agent.Output.Buffer.Eviction.{make_room_rule}

-- `r` is `r₀` less its oldest chunks; a run that lost any is flagged, and a flag stays.
pub record Keeps (r₀ r : RunOutput) : Type 0 where
  pub lost : ℕ
  pub rest : r.chunks ≡ drop lost r₀.chunks
  pub flagged : (lost ≡ 0) ⊎ (r.truncated ≡ true)
  pub still : r₀.truncated ≡ true → r.truncated ≡ true

tail-drop : (n : ℕ) (cs : List Chunk) → tail (drop n cs) ≡ drop (suc n) cs
tail-drop zero [] = refl
tail-drop zero (c ∷ cs) = refl
tail-drop (suc n) [] = refl
tail-drop (suc n) (c ∷ cs) = tail-drop n cs

Keeps-evicted : (r₀ r : RunOutput) → Keeps r₀ r → Keeps r₀ (without_oldest (mark_truncated r))
Keeps-evicted r₀ r k = record {
  lost = suc k.lost;
  rest = ap tail k.rest ∙ tail-drop k.lost r₀.chunks;
  flagged = inr refl;
  still = λ _. refl;
}

-- The entry of run `j` is what is kept of `r₀`.
pub record Entry (j : String) (r₀ : RunOutput) (b : Buffer) : Type 0 where
  pub distinct : HasDistinctKeys b.runs
  pub now : RunOutput
  pub found : lookup j b.runs ≡ some now
  pub keeps : Keeps r₀ now

evicted_twice :
    (t : Bool) (r : RunOutput)
    → some (
        if t
        then without_oldest (if t then mark_truncated r else r)
        else if t
        then mark_truncated r
        else r)
      ≡ some (if t then without_oldest (mark_truncated r) else r)
evicted_twice true r = refl
evicted_twice false r = refl

evicted-Keeps :
    (t : Bool) (r₀ r : RunOutput)
    → Keeps r₀ r
    → Keeps r₀ (if t then without_oldest (mark_truncated r) else r)
evicted-Keeps true r₀ r k = Keeps-evicted r₀ r k
evicted-Keeps false r₀ r k = k

evict-Entry :
    (j : String) (r₀ : RunOutput) (b : Buffer) (k : String) (r : RunOutput)
    → Entry j r₀ b
    → lookup k b.runs ≡ some r
    → Entry j r₀ (evict k r b)
unfolding evict drop_oldest
evict-Entry j r₀ b k r e held =
    let marked = lookup-modify k j mark_truncated b.runs e.now e.found in
    record {
      distinct = HasDistinctKeys-modify _ _ _ (HasDistinctKeys-modify _ _ _ e.distinct);
      now = if str_eq k j then without_oldest (mark_truncated e.now) else e.now;
      found = lookup-modify k j without_oldest _ _ marked ∙ evicted_twice (str_eq k j) e.now;
      keeps = evicted-Keeps (str_eq k j) r₀ e.now e.keeps;
    }

pub make_room-Entry :
    (visit : ℕ → Runs → Runs) (visits : IsVisit visit) (size fuel i : ℕ) (b : Buffer) (j : String)
    (r₀ : RunOutput)
    → Entry j r₀ b
    → Entry j r₀ (make_room visit fuel i size b)
make_room-Entry visit visits size fuel i b j r₀ =
    make_room_rule visit visits size (Entry j r₀) (λ b e. e.distinct)
      (λ b k r e held _. evict-Entry j r₀ b k r e held) fuel i b

-- `run` changes no entry that is there, and makes the one that is asked for.
pub with_run-lookup :
    (k j : String) (rs : Runs) (r : RunOutput)
    → lookup j rs ≡ some r
    → lookup j (with_run k rs) ≡ some r
unfolding with_run
with_run-lookup k j rs r e = ground (arith, eq_iff k j)

pub with_run-own : (k : String) (rs : Runs) → (r : RunOutput) × (lookup k (with_run k rs) ≡ some r)
unfolding with_run
with_run-own k rs = elim (Option-cases (lookup k rs)) [
  | inl e ↦ (no_output, rw (e, with_run) (rw (eq_refl k)))
  | inr (r, e) ↦ (r, rw (e, with_run) e)
]

pub with_run-IsValid :
    (k : String) (b : Buffer) → IsValid b → IsValid (record b { runs = with_run k b.runs })
unfolding with_run
with_run-IsValid k b v = elim (Option-cases (lookup k b.runs)) [
  | inl e ↦ record {
    distinct = rw (e, with_run) (Absent-lookup k b.runs e, v.distinct);
    counted = rw (e, with_run) (refl, v.counted);
    sized = rw (e, with_run) (omega arith);
    within = v.within;
  }
  | inr (r, e) ↦ record {
    distinct = rw (e, with_run) v.distinct;
    counted = rw (e, with_run) v.counted;
    sized = rw (e, with_run) v.sized;
    within = v.within;
  }
]
