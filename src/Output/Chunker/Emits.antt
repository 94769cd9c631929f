-- ===== src/Output/Chunker/Emits.antt =====
-- What a step of internal/output/chunker.go does to the bytes, the numbers and the sizes.
use omj_agent.Base.{
  ℕ, suc, ◌+◌, ◌≤◌, ◌<◌, ◌≡◌, refl, sym, ap, ◌∙◌, String, Bool, true, false, some, List, [], ◌∷◌,
  ◌++◌, map, map-append, append_assoc, append-nil, arith, ◌==◌, if◌then◌else◌, length,
  length-append, length-take, take, All, All-append, Bool-cases, inl, inr, subst,
}
use omj_agent.Output.Chunk.{Stream, Chunk, size_of}
use omj_agent.Output.Buffer.Batches.{IsContiguous, last_seq}
use omj_agent.Output.Chunker.{
  Chunker, flush_locked, switch_stream, open_pending, append_pending, flush_full,
}

-- Bytes with the stream that they came on.
abbrev pub tag : Stream → List ℕ → List (Stream × ℕ)
tag s = map (λ b. (s, b))

abbrev pub tagged : List Chunk → List (Stream × ℕ)
tagged [] = []
tagged (c ∷ cs) = tag c.stream c.payload ++ tagged cs

abbrev pub tagged_pending : Chunker → List (Stream × ℕ)
tagged_pending c = tag c.pending.stream c.pending.payload

pub length-tag : (s : Stream) (bytes : List ℕ) → length (tag s bytes) ≡ length bytes
length-tag s [] = refl
length-tag s (x ∷ xs) = ap suc (length-tag s xs)

pub tagged-append : (xs ys : List Chunk) → tagged (xs ++ ys) ≡ tagged xs ++ tagged ys
tagged-append [] ys = refl
tagged-append (c ∷ cs) ys =
    ap (λ r. tag c.stream c.payload ++ r) (tagged-append cs ys)
    ∙ sym (append_assoc (tag c.stream c.payload) (tagged cs) (tagged ys))

-- A chunk of this run, not empty and within the size.
pub record IsSized (run_id : String) (chunk_bytes : ℕ) (c : Chunk) : Type 0 where
  pub owner : c.run_id ≡ run_id
  pub some_bytes : 0 < size_of c
  pub within : size_of c ≤ chunk_bytes

-- From `c` to `c'` the chunks `out` were emitted and the bytes `taken` were taken in.
pub record Emits (c c' : Chunker) (out : List Chunk) (taken : List (Stream × ℕ)) : Type 0 where
  pub bytes : tagged out ++ tagged_pending c' ≡ tagged_pending c ++ taken
  pub numbered : IsContiguous (some c.seq) out
  pub last : last_seq (some c.seq) out ≡ some c'.seq
  pub sized : All (IsSized c.run_id c.chunk_bytes) out
  pub counted : c'.written ≡ c.written + length taken
  pub same_run : c'.run_id ≡ c.run_id
  pub same_size : c'.chunk_bytes ≡ c.chunk_bytes
  pub same_limit : c'.max_output ≡ c.max_output
  pub same_flag : c'.truncated ≡ c.truncated
  pub same_closed : c'.closed ≡ c.closed

pub IsContiguous-append :
    (p : ℕ) (q : ℕ) (xs ys : List Chunk)
    → IsContiguous (some p) xs
    → last_seq (some p) xs ≡ some q
    → IsContiguous (some q) ys
    → IsContiguous (some p) (xs ++ ys)
IsContiguous-append p q [] ys h e k = subst (λ n. IsContiguous (some n) ys) (ground arith) k
IsContiguous-append p q (c ∷ cs) ys h e k = (h.0, IsContiguous-append c.seq q cs ys h.1 e k)

pub last_seq-append :
    (p q : ℕ) (xs ys : List Chunk)
    → last_seq (some p) xs ≡ some q
    → last_seq (some p) (xs ++ ys) ≡ last_seq (some q) ys
last_seq-append p q [] ys e = ap (λ o. last_seq o ys) e
last_seq-append p q (c ∷ cs) ys e = last_seq-append c.seq q cs ys e

-- Steps in sequence.
pub Emits-trans :
    {a b c : Chunker} {xs ys : List Chunk} {s t : List (Stream × ℕ)}
    → Emits a b xs s
    → Emits b c ys t
    → Emits a c (xs ++ ys) (s ++ t)
Emits-trans {a} {b} {c} {xs} {ys} {s} {t} p q = record {
  bytes =
      rw (tagged-append xs ys, append_assoc (tagged xs) (tagged ys) (tagged_pending c), q.bytes)
        (sym (append_assoc (tagged xs) (tagged_pending b) t)
          ∙ ap (λ r. r ++ t) p.bytes
          ∙ append_assoc (tagged_pending a) s t);
  numbered = IsContiguous-append a.seq b.seq xs ys p.numbered p.last q.numbered;
  last = last_seq-append a.seq b.seq xs ys p.last ∙ q.last;
  sized = All-append _ xs ys p.sized (rw (← p.same_run, ← p.same_size) q.sized);
  counted = omega (arith, p.counted, q.counted, length-append s t);
  same_run = q.same_run ∙ p.same_run;
  same_size = q.same_size ∙ p.same_size;
  same_limit = q.same_limit ∙ p.same_limit;
  same_flag = q.same_flag ∙ p.same_flag;
  same_closed = q.same_closed ∙ p.same_closed;
}

pub Emits-refl : (c : Chunker) → Emits c c [] []
Emits-refl c = record {
  bytes = sym (append-nil _);
  numbered = tt;
  last = refl;
  sized = tt;
  counted = omega arith;
  same_run = refl;
  same_size = refl;
  same_limit = refl;
  same_flag = refl;
  same_closed = refl;
}

pub flush_locked-Emits :
    (c : Chunker)
    → length c.pending.payload ≤ c.chunk_bytes
    → Emits c (flush_locked c).0 (flush_locked c).1 []
unfolding flush_locked
flush_locked-Emits c h = elim (Bool-cases (length c.pending.payload == 0)) [
  | inl none_left ↦ rw none_left (Emits-refl c)
  | inr some_left ↦ rw some_left (record {
    bytes = append_assoc (tagged_pending c) [] [];
    numbered = (ground arith, tt);
    last = refl;
    sized = (record { owner = refl; some_bytes = ground arith; within = h }, tt);
    counted = omega arith;
    same_run = refl;
    same_size = refl;
    same_limit = refl;
    same_flag = refl;
    same_closed = refl;
  })
]

if-Emits :
    (t : Bool) {c : Chunker} {p q : Chunker × List Chunk}
    → Emits c p.0 p.1 []
    → Emits c q.0 q.1 []
    → Emits c (if t then p else q).0 (if t then p else q).1 []
if-Emits true p q = p
if-Emits false p q = q

pub switch_stream-Emits :
    (s : Stream) (c : Chunker)
    → length c.pending.payload ≤ c.chunk_bytes
    → Emits c (switch_stream s c).0 (switch_stream s c).1 []
unfolding switch_stream
switch_stream-Emits s c h = if-Emits _ (flush_locked-Emits c h) (Emits-refl c)

pub length-zero : (xs : List ℕ) → (length xs == 0) ≡ true → xs ≡ []
length-zero [] h = refl
length-zero (x ∷ xs) h = absurd (ground arith)

pub open_pending-Emits :
    (now : ℕ → ℕ) (s : Stream) (c : Chunker) → Emits c (open_pending now s c) [] []
unfolding open_pending
open_pending-Emits now s c = elim (Bool-cases (length c.pending.payload == 0)) [
  | inr some_left ↦ rw some_left (Emits-refl c)
  | inl none_left ↦ rw none_left (record {
    bytes =
        sym (append-nil _ ∙ ap (tag c.pending.stream) (length-zero c.pending.payload none_left));
    numbered = tt;
    last = refl;
    sized = tt;
    counted = omega arith;
    same_run = refl;
    same_size = refl;
    same_limit = refl;
    same_flag = refl;
    same_closed = refl;
  })
]

pub append_pending-Emits :
    (n : ℕ) (bytes : List ℕ) (c : Chunker)
    → n ≤ length bytes
    → Emits c (append_pending n bytes c) [] (tag c.pending.stream (take n bytes))
unfolding append_pending
append_pending-Emits n bytes c h = record {
  bytes = map-append (λ b. (c.pending.stream, b)) c.pending.payload (take n bytes);
  numbered = tt;
  last = refl;
  sized = tt;
  counted = omega (arith, length-tag c.pending.stream (take n bytes), length-take n bytes);
  same_run = refl;
  same_size = refl;
  same_limit = refl;
  same_flag = refl;
  same_closed = refl;
}

pub flush_full-Emits :
    (c : Chunker)
    → length c.pending.payload ≤ c.chunk_bytes
    → Emits c (flush_full c).0 (flush_full c).1 []
unfolding flush_full
flush_full-Emits c h = if-Emits _ (flush_locked-Emits c h) (Emits-refl c)
