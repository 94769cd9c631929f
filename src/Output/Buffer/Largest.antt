-- ===== src/Output/Buffer/Largest.antt =====
-- `largestRun` of internal/output/buffer.go, for every order in which the map may be visited.
use mathlib.Core.List.{Mem, Memᴰ, Perm, mem-cons_self, mem-cons_of_mem}
use mathlib.Core.List.Perm
use mathlib.Core.Logic.{∥∥₁_elim}
use text.Mathlib.TextEquality.{IsScalar-prop}
use text.Mathlib.TextPositions.{eq_refl}
use omj_agent.Base.{
  ℕ, ◌≤◌, ◌≡◌, ◌⊎◌, refl, sym, ap, String, Bool, true, false, Option, none, some, List, [], ◌∷◌,
  ◌&&◌, arith, lookup, str_eq, eq_iff, HasDistinctKeys, Absent, Bool-cases, inl, inr, subst,
}
use omj_agent.Output.Chunk.{Chunk}
use omj_agent.Output.Buffer.{RunOutput, Runs, has_chunks, is_larger, largest_from, largest_run}
use omj_agent.Output.Buffer.Sizes.{IsCounted, AllRuns, total_bytes, payload_bytes}

-- The orders in which Go may visit the map.
abbrev pub IsVisit : (ℕ → Runs → Runs) → Type 0
IsVisit visit = (i : ℕ) (rs : Runs) → Perm (visit i rs) rs

Option-RunOutput-set : IsSet (Option RunOutput)
Option-RunOutput-set = hlevel (IsScalar-prop)

Bool-set : IsSet Bool
Bool-set = hlevel

not-Memᴰ-Absent : (k : String) (r : RunOutput) (rs : Runs) → Absent k rs → ¬ Memᴰ (k, r) rs
not-Memᴰ-Absent k r [] h m = elim m [ ]
not-Memᴰ-Absent k r ((j, x) ∷ rs) h (Memᴰ.head e) = ground (arith, eq_refl k, ap (λ p. p.0) e)
not-Memᴰ-Absent k r ((j, x) ∷ rs) h (Memᴰ.tail m) = not-Memᴰ-Absent k r rs h.1 m

lookup_of_Memᴰ :
    (k : String) (r : RunOutput) (rs : Runs)
    → HasDistinctKeys rs
    → Memᴰ (k, r) rs
    → lookup k rs ≡ some r
lookup_of_Memᴰ k r [] h m = elim m [ ]
lookup_of_Memᴰ k r ((j, x) ∷ rs) h (Memᴰ.head e) =
    ground (arith, eq_refl k, ap (λ p. p.0) e, ap (λ p. p.1) e)
lookup_of_Memᴰ k r ((j, x) ∷ rs) h (Memᴰ.tail m) = elim (Bool-cases (str_eq j k)) [
  | inl hit ↦ absurd (not-Memᴰ-Absent k r rs (subst (λ i. Absent i rs) ((eq_iff j k).0 hit) h.0) m)
  | inr miss ↦ rw miss (lookup_of_Memᴰ k r rs h.1 m)
]

lookup_of_mem :
    (k : String) (r : RunOutput) (rs : Runs)
    → HasDistinctKeys rs
    → Mem (k, r) rs
    → lookup k rs ≡ some r
lookup_of_mem k r rs h m = ∥∥₁_elim m (Option-RunOutput-set _ _) (lookup_of_Memᴰ k r rs h)

&&-left : (a b : Bool) → (a && b) ≡ true → a ≡ true
&&-left true b h = refl
&&-left false b h = h

-- What the scan for the largest run finds is in the map and has chunks, or was held before.
largest_from-mem :
    (best : Option (String × RunOutput)) (rs : Runs) (k : String) (r : RunOutput)
    → largest_from best rs ≡ some (k, r)
    → (best ≡ some (k, r)) ⊎ (Memᴰ (k, r) rs × (has_chunks r ≡ true))
unfolding largest_from
largest_from-mem best [] k r e = inl e
largest_from-mem best ((j, x) ∷ rs) k r e = elim (Bool-cases (has_chunks x && is_larger x best)) [
  | inl t ↦ elim (largest_from-mem (some (j, x)) rs k r (rw t at e)) [
    | inl q ↦
        let same : (k, r) ≡ (j, x) = cc in
        inr (Memᴰ.head same, subst (λ p. has_chunks p.1 ≡ true) (sym same) (&&-left _ _ t))
    | inr (m, h) ↦ inr (Memᴰ.tail m, h)
  ]
  | inr f ↦ elim (largest_from-mem best rs k r (rw f at e)) [
    | inl q ↦ inl q
    | inr (m, h) ↦ inr (Memᴰ.tail m, h)
  ]
]

-- A run that has no chunk, or at most so many bytes.
abbrev pub IsAtMost : ℕ → RunOutput → Type 0
IsAtMost n x = (has_chunks x ≡ false) ⊎ (x.bytes ≤ n)

abbrev bytes_or_zero : Option (String × RunOutput) → ℕ
bytes_or_zero none = 0
bytes_or_zero (some (k, r)) = r.bytes

largest_from-IsAtMost :
    (best : Option (String × RunOutput)) (rs : Runs) (k : String) (r : RunOutput)
    → largest_from best rs ≡ some (k, r)
    → (bytes_or_zero best ≤ r.bytes) × AllRuns (IsAtMost r.bytes) rs
unfolding largest_from
largest_from-IsAtMost none [] k r e = cc
largest_from-IsAtMost (some (j, x)) [] k r e = (ground arith, tt)
largest_from-IsAtMost none ((j, x) ∷ rs) k r e =
    ground (arith, largest_from-IsAtMost (some (j, x)) rs k r, largest_from-IsAtMost none rs k r)
largest_from-IsAtMost (some b) ((j, x) ∷ rs) k r e =
    ground
      (arith, largest_from-IsAtMost (some (j, x)) rs k r, largest_from-IsAtMost (some b) rs k r)

largest_from-none :
    (best : Option (String × RunOutput)) (rs : Runs)
    → largest_from best rs ≡ none
    → (best ≡ none) × AllRuns (λ x. has_chunks x ≡ false) rs
unfolding largest_from
largest_from-none best [] e = (e, tt)
largest_from-none none ((j, x) ∷ rs) e =
    ground (arith, largest_from-none (some (j, x)) rs, largest_from-none none rs)
largest_from-none (some b) ((j, x) ∷ rs) e =
    ground (arith, largest_from-none (some (j, x)) rs, largest_from-none (some b) rs)

-- The run that is chosen is in the map, has a chunk, and no run with chunks holds more bytes.
pub largest_run-some :
    (visited rs : Runs) (k : String) (r : RunOutput)
    → Perm visited rs
    → HasDistinctKeys rs
    → largest_run visited ≡ some (k, r)
    → (lookup k rs ≡ some r) × (has_chunks r ≡ true) × AllRuns (IsAtMost r.bytes) visited
unfolding largest_run
largest_run-some visited rs k r p h e = elim (largest_from-mem none visited k r e) [
  | inl q ↦ absurd (cc)
  | inr (m, c) ↦ (
    lookup_of_mem k r rs h ((Perm.mem_iff p).0 ∣ m ∣₁),
    c,
    (largest_from-IsAtMost none visited k r e).1,
  )
]

AllRuns-Memᴰ :
    (rs : Runs) (p : String × RunOutput)
    → AllRuns (λ x. has_chunks x ≡ false) rs
    → Memᴰ p rs
    → has_chunks p.1 ≡ false
AllRuns-Memᴰ [] p h m = elim m [ ]
AllRuns-Memᴰ ((j, x) ∷ rs) p h (Memᴰ.head e) = subst (λ q. has_chunks q.1 ≡ false) (sym e) h.0
AllRuns-Memᴰ ((j, x) ∷ rs) p h (Memᴰ.tail m) = AllRuns-Memᴰ rs p h.1 m

bytes-zero : (r : RunOutput) → IsCounted r → has_chunks r ≡ false → r.bytes ≡ 0
bytes-zero r c h = go r.chunks r.bytes c h
  where
    go :
        (cs : List Chunk) (n : ℕ)
        → n ≡ payload_bytes cs
        → (elim cs [ [] ↦ false | _ ∷ _ ↦ true ]) ≡ false
        → n ≡ 0
    go [] n c h = c
    go (x ∷ cs) n c h = absurd (cc)

total_bytes-zero :
    (rs : Runs)
    → AllRuns IsCounted rs
    → ((p : String × RunOutput) → Mem p rs → has_chunks p.1 ≡ false)
    → total_bytes rs ≡ 0
total_bytes-zero [] c h = refl
total_bytes-zero ((j, x) ∷ rs) c h = omega (
  arith,
  bytes-zero x c.0 (h (j, x) mem-cons_self),
  total_bytes-zero rs c.1 (λ p m. h p (mem-cons_of_mem _ m)),
)

-- If no run is chosen, no run has bytes to give.
pub largest_run-none :
    (visited rs : Runs)
    → Perm visited rs
    → AllRuns IsCounted rs
    → largest_run visited ≡ none
    → total_bytes rs ≡ 0
unfolding largest_run
largest_run-none visited rs p c e = total_bytes-zero rs c (λ q m.
    ∥∥₁_elim ((Perm.mem_iff p).1 m) (Bool-set _ _)
      (AllRuns-Memᴰ visited q (largest_from-none none visited e).1))
