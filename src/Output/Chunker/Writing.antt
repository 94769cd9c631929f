-- ===== src/Output/Chunker/Writing.antt =====
-- `Write` of internal/output/chunker.go.
use omj_agent.Base.{
  ℕ, zero, suc, ◌≤◌, ◌<◌, ◌≡◌, ◌⊎◌, refl, sym, ap, ◌∙◌, Bool, true, false, ◌&&◌, none, some,
  Option-cases, List, [], ◌∷◌, ◌++◌, map-append, arith, ltb, if◌then◌else◌, length, length-take,
  length-drop, take, drop, take_all, inl, inr, to_ℕ, is_positive, subst, take-append-drop,
}
use omj_agent.Output.Chunk.{Stream, Chunk}
use omj_agent.Output.Chunker.{
  Chunker, write_round, write_loop, write, limit_data, remaining, cut_off,
}
use omj_agent.Output.Chunker.Emits.{tag, length-tag, Emits, Emits-trans, Emits-refl}
use omj_agent.Output.Chunker.Rounds.{IsOpen, write_round-Progress}

-- The limit leaves all of these bytes.
abbrev IsFitting : Chunker → List ℕ → Type 0
IsFitting c bytes = (is_positive c.max_output ≡ false) ⊎ (length bytes ≤ remaining c)

abbrev Loops : (ℕ → ℕ) → ℕ → Stream → List ℕ → Chunker → Chunker → List ℕ → Type 0
Loops now fuel s bytes c c₀ kept =
    Emits c₀ (write_loop now fuel s bytes c).0 (write_loop now fuel s bytes c).1 (tag s kept)
    × IsOpen (write_loop now fuel s bytes c).0

drop-tag :
    (s : Stream) (n : ℕ) (bytes : List ℕ)
    → tag s (take n bytes) ++ tag s (drop n bytes) ≡ tag s bytes
drop-tag s n bytes =
    sym (map-append (λ b. (s, b)) (take n bytes) (drop n bytes))
    ∙ ap (tag s) (take-append-drop n bytes)

pub cut_off-false : (c : Chunker) → cut_off false c ≡ c
cut_off-false c = ground arith

IsFitting-round :
    (s : Stream) (d d' : Chunker) (out : List Chunk) (n : ℕ) (kept : List ℕ)
    → Emits d d' out (tag s (take n kept))
    → n ≤ length kept
    → IsFitting d kept
    → IsFitting d' (drop n kept)
IsFitting-round s d d' out n kept em most (inl free) = inl (ap is_positive em.same_limit ∙ free)
IsFitting-round s d d' out n kept em most (inr fits) = inr (
    omega (
      arith,
      ap to_ℕ em.same_limit,
      em.counted,
      length-tag s (take n kept),
      length-take n kept,
      length-drop n kept,
    ))

module _ (now : ℕ → ℕ) (s : Stream) where
  -- One round, and the rounds after it.
  loop_step :
      (fuel : ℕ) (x : ℕ) (xs kept : List ℕ) (cut : Bool) (c : Chunker)
      → ((bytes : List ℕ) (d : Chunker)
          → length bytes ≤ fuel
          → IsOpen d
          → IsFitting d bytes
          → Loops now fuel s bytes d d bytes)
      → limit_data c (x ∷ xs) ≡ some (kept, cut)
      → 0 < length kept
      → length kept ≤ suc fuel
      → IsOpen c
      → IsFitting c kept
      → Loops now (suc fuel) s (x ∷ xs) c (cut_off cut c) kept
  unfolding write_loop
  loop_step fuel x xs kept cut c ih limit some_bytes enough opens fits =
      let d = cut_off cut c in
      let r = write_round-Progress now s kept d opens some_bytes in
      let d' = (write_round now s kept d).0 in
      let shorter = length-drop r.n kept in
      let more : Loops now fuel s (drop r.n kept) d' d' (drop r.n kept) =
        ih (drop r.n kept) d' (omega (arith, r.takes)) r.opens
          (IsFitting-round s d d' _ r.n kept r.emits r.most fits) in
      rw (limit, write_loop)
        (rw r.rest (subst (Emits d _ _) (drop-tag s r.n kept) (Emits-trans r.emits more.0), more.1))

  limit_data_fits :
      (c : Chunker) (bytes : List ℕ)
      → 0 < length bytes
      → IsFitting c bytes
      → limit_data c bytes ≡ some (bytes, false)
  unfolding limit_data
  limit_data_fits c bytes some_bytes fits = ground arith

  -- Bytes that fit are taken to the last one.
  write_loop_fits :
      (fuel : ℕ) (bytes : List ℕ) (c : Chunker)
      → length bytes ≤ fuel
      → IsOpen c
      → IsFitting c bytes
      → Loops now fuel s bytes c c bytes
  write_loop_fits zero [] c enough opens fits = unfold write_loop in (Emits-refl c, opens)
  write_loop_fits zero (x ∷ xs) c enough opens fits = absurd (omega arith)
  write_loop_fits (suc fuel) [] c enough opens fits = unfold write_loop in (Emits-refl c, opens)
  write_loop_fits (suc fuel) (x ∷ xs) c enough opens fits =
      subst (λ d. Loops now (suc fuel) s (x ∷ xs) c d (x ∷ xs)) (cut_off-false c)
        (loop_step fuel x xs (x ∷ xs) false c (write_loop_fits fuel)
          (limit_data_fits c (x ∷ xs) (omega arith) fits) (omega arith) enough opens fits)

-- What the limit lets through of some bytes, and whether it cuts any.
abbrev pub kept {ℓ} : {A : Type ℓ} → Chunker → List A → List A
kept c xs = if is_positive c.max_output then take (remaining c) xs else xs

abbrev pub overflows : Chunker → ℕ → Bool
overflows c n = is_positive c.max_output && ltb (remaining c) n

take_zero : (n : ℕ) (xs : List ℕ) → n ≡ 0 → take n xs ≡ []
take_zero zero xs h = refl
take_zero (suc n) xs h = absurd (omega arith)

limit_data-none :
    (c : Chunker) (bytes : List ℕ)
    → 0 < length bytes
    → limit_data c bytes ≡ none
    → (kept c bytes ≡ []) × (overflows c (length bytes) ≡ true)
unfolding limit_data
limit_data-none c bytes some_bytes e = ground (arith, take_zero (remaining c) bytes)

limit_data-some :
    (c : Chunker) (bytes : List ℕ) (data' : List ℕ) (cut : Bool)
    → 0 < length bytes
    → limit_data c bytes ≡ some (data', cut)
    → (kept c bytes ≡ data')
      × (overflows c (length bytes) ≡ cut)
      × (0 < length data')
      × (length data' ≤ length bytes)
      × IsFitting c data'
unfolding limit_data
limit_data-some c bytes data' cut some_bytes e =
    ground (arith, take_all (remaining c) bytes, length-take (remaining c) bytes)

-- A whole call: the bytes that the limit lets through are taken, and the flag is set if it cut any.
pub record Written (s : Stream) (bytes : List ℕ) (c c' : Chunker) (out : List Chunk) : Type 0 where
  pub emits : Emits (cut_off (overflows c (length bytes)) c) c' out (tag s (kept c bytes))
  pub opens : IsOpen c'

if_take_nil {ℓ} : {A : Type ℓ} (t : Bool) (n : ℕ) → (if t then take {A = A} n [] else []) ≡ []
if_take_nil false n = refl
if_take_nil true zero = refl
if_take_nil true (suc n) = refl

pub overflows-zero : (c : Chunker) → overflows c 0 ≡ false
overflows-zero c = ground arith

pub kept-nil {ℓ} : {A : Type ℓ} (c : Chunker) → kept {A = A} c [] ≡ []
kept-nil c = if_take_nil (is_positive c.max_output) (remaining c)

write_loop-Written :
    (now : ℕ → ℕ) (s : Stream) (bytes : List ℕ) (c : Chunker)
    → IsOpen c
    → Written s bytes c
        (write_loop now (length bytes) s bytes c).0
        (write_loop now (length bytes) s bytes c).1
unfolding write_loop
write_loop-Written now s [] c opens = record {
  emits = rw (kept-nil {A = ℕ} c, overflows-zero c, cut_off-false c) (Emits-refl c);
  opens = opens;
}
write_loop-Written now s (x ∷ xs) c opens = elim (Option-cases (limit_data c (x ∷ xs))) [
  | inl e ↦
      let (nothing, over) = limit_data-none c (x ∷ xs) (omega arith) e in
      rw (e, write_loop) (record { emits = rw (over, nothing) (Emits-refl _); opens = opens })
  | inr ((bytes, cut), e) ↦
      let (some_kept, over, some_bytes, shorter, fits) =
        limit_data-some c (x ∷ xs) bytes cut (omega arith) e in
      let l =
        loop_step now s (length xs) x xs bytes cut c (write_loop_fits now s (length xs)) e
          some_bytes (omega (arith, shorter)) opens fits in
      record { emits = rw (over, some_kept) l.0; opens = l.1 }
]

-- `Write` on an open chunker takes the bytes that the output limit lets through, and flags the
-- run as truncated if the limit cut any; a closed chunker takes none.
pub write-Written :
    (now : ℕ → ℕ) (s : Stream) (bytes : List ℕ) (c : Chunker)
    → IsOpen c
    → c.closed ≡ false
    → Written s bytes c (write now s bytes c).0 (write now s bytes c).1
unfolding write
write-Written now s bytes c opens live =
    let r = write_loop now (length bytes) s bytes c in
    subst (λ t. Written s bytes c (if t then (c, []) else r).0 (if t then (c, []) else r).1)
      (sym live) (write_loop-Written now s bytes c opens)
