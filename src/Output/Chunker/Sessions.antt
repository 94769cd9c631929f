-- ===== src/Output/Chunker/Sessions.antt =====
-- internal/output/chunker.go over a whole run: any sequence of writes, ticks and closes.
use omj_agent.Base.{
  ℕ, ◌-◌, ◌≡◌, refl, sym, ap, ◌∙◌, String, Bool, true, false, ◌&&◌, ltb, some, List, [], ◌∷◌, ◌++◌,
  append-nil, arith, ◌==◌, if◌then◌else◌, length, take, All, Bool-cases, inl, inr, ℤ, to_ℕ,
  is_positive, subst, positive_or-pos, positive_or,
}
use omj_agent.Output.Chunk.{Stream, Chunk}
use omj_agent.Output.Buffer.Batches.{IsContiguous, last_seq}
use omj_agent.Output.Chunker.{
  Chunker, new_chunker, default_chunk_bytes, flush_locked, remaining, cut_off, write, tick, close,
}
use omj_agent.Output.Chunker.Emits.{
  tag, length-tag, tagged, tagged_pending, IsSized, Emits, flush_locked-Emits, length-zero,
}
use omj_agent.Output.Chunker.Rounds.{IsOpen}
use omj_agent.Output.Chunker.Writing.{
  kept, kept-nil, overflows, overflows-zero, cut_off-false, write-Written,
}
use omj_agent.Output.Chunker.Calls.{
  Call, writes, ticks, closes, call, run_calls, offered, Session, Session-cons, Session-refl,
  take-tag,
}

run_calls-closed : (c : Chunker) (cs : List Call) → c.closed ≡ true → run_calls c cs ≡ (c, [])
unfolding run_calls call write tick close
run_calls-closed c [] shut = refl
run_calls-closed c (writes now s bytes ∷ cs) shut = ground (arith, run_calls-closed c cs shut)
run_calls-closed c (ticks ∷ cs) shut = ground (arith, run_calls-closed c cs shut)
run_calls-closed c (closes ∷ cs) shut = ground (arith, run_calls-closed c cs shut)

flush_locked-IsOpen : (c : Chunker) → IsOpen c → IsOpen (flush_locked c).0
unfolding flush_locked
flush_locked-IsOpen c h = ground arith

-- The first step of each call on a live chunker.
abbrev Step : Chunker → Call → List (Stream × ℕ) → Type 0
Step c x xs =
    Emits (cut_off (overflows c (length xs)) c) (call c x).0 (call c x).1 (kept c xs)
    × IsOpen (call c x).0

write-Step :
    (c : Chunker) (now : ℕ → ℕ) (s : Stream) (bytes : List ℕ)
    → IsOpen c
    → c.closed ≡ false
    → Step c (writes now s bytes) (tag s bytes)
unfolding call
write-Step c now s bytes opens live =
    let w = write-Written now s bytes c opens live in
    (
      rw (length-tag s bytes, ← take-tag (is_positive c.max_output) (remaining c) s bytes) w.emits,
      w.opens,
    )

tick-Step : (c : Chunker) → IsOpen c → c.closed ≡ false → Step c ticks []
unfolding call tick
tick-Step c opens live =
    subst
      (λ t.
        Emits (cut_off (overflows c 0) c) (if t then (c, []) else flush_locked c).0
          (if t then (c, []) else flush_locked c).1 (kept c [])
        × IsOpen (if t then (c, []) else flush_locked c).0)
      (sym live)
      (
        rw (kept-nil {A = Stream × ℕ} c, overflows-zero c, cut_off-false c)
            (flush_locked-Emits c (omega arith)),
        flush_locked-IsOpen c opens,
      )

closed-Session :
    (c d : Chunker) (out : List Chunk)
    → Emits c d out []
    → Session c (record d { closed = true }) out []
closed-Session c d out em = record {
  taken = em.bytes ∙ sym (ap (λ r. tagged_pending c ++ r) (kept-nil c));
  numbered = em.numbered;
  last = em.last;
  sized = em.sized;
  flagged = ground (arith, em.same_flag);
}

flush_locked-empty : (c : Chunker) → (flush_locked c).0.pending.payload ≡ []
unfolding flush_locked
flush_locked-empty c = elim (Bool-cases (length c.pending.payload == 0)) [
  | inl none_left ↦ rw none_left (length-zero c.pending.payload none_left)
  | inr some_left ↦ rw some_left
]

abbrev closing : Bool → Chunker → Chunker × List Chunk
closing t c =
    if t then (c, []) else (record (flush_locked c).0 { closed = true }, (flush_locked c).1)

close_lem :
    (c : Chunker)
    → IsOpen c
    → c.closed ≡ false
    → Session c (close c).0 (close c).1 []
      × ((close c).0.pending.payload ≡ [])
      × ((close c).0.closed ≡ true)
unfolding close
close_lem c opens live =
    subst
      (λ t.
        Session c (closing t c).0 (closing t c).1 []
        × ((closing t c).0.pending.payload ≡ [])
        × ((closing t c).0.closed ≡ true))
      (sym live)
      (closed-Session c _ _ (flush_locked-Emits c (omega arith)), flush_locked-empty c, refl)

-- Any sequence of calls on a live chunker.
run_calls-Session :
    (c : Chunker) (cs : List Call)
    → IsOpen c
    → c.closed ≡ false
    → Session c (run_calls c cs).0 (run_calls c cs).1 (offered cs)
unfolding run_calls
run_calls-Session c [] opens live = Session-refl c
run_calls-Session c (writes now s bytes ∷ cs) opens live =
    let (em, opens') = write-Step c now s bytes opens live in
    Session-cons c _ _ _ _ (tag s bytes) (offered cs) em
      (run_calls-Session (call c (writes now s bytes)).0 cs opens' (em.same_closed ∙ live))
run_calls-Session c (ticks ∷ cs) opens live =
    let (em, opens') = tick-Step c opens live in
    Session-cons c _ _ _ _ [] (offered cs) em
      (run_calls-Session (call c ticks).0 cs opens' (em.same_closed ∙ live))
run_calls-Session c (closes ∷ cs) opens live =
    unfold call in
    let (ses, _, shut) = close_lem c opens live in
    rw (run_calls-closed (close c).0 cs shut) (rw (append-nil (close c).1) ses)

run_calls-closing :
    (c : Chunker) (cs : List Call)
    → IsOpen c
    → c.closed ≡ false
    → (run_calls c (cs ++ closes ∷ [])).0.pending.payload ≡ []
unfolding run_calls
run_calls-closing c [] opens live = unfold call in (close_lem c opens live).1
run_calls-closing c (writes now s bytes ∷ cs) opens live =
    let (em, opens') = write-Step c now s bytes opens live in
    run_calls-closing (call c (writes now s bytes)).0 cs opens' (em.same_closed ∙ live)
run_calls-closing c (ticks ∷ cs) opens live =
    let (em, opens') = tick-Step c opens live in
    run_calls-closing (call c ticks).0 cs opens' (em.same_closed ∙ live)
run_calls-closing c (closes ∷ cs) opens live =
    unfold call in
    let (_, empty, shut) = close_lem c opens live in
    ap (λ p. p.0.pending.payload) (run_calls-closed (close c).0 (cs ++ closes ∷ []) shut) ∙ empty

offered-closing : (cs : List Call) → offered (cs ++ closes ∷ []) ≡ offered cs
offered-closing [] = refl
offered-closing (writes now s bytes ∷ cs) = ap (λ r. tag s bytes ++ r) (offered-closing cs)
offered-closing (ticks ∷ cs) = offered-closing cs
offered-closing (closes ∷ cs) = refl

-- The output of a run under `MaxOutput`, none if it is not positive.
abbrev pub limited {ℓ} : {A : Type ℓ} → ℤ → List A → List A
limited max_output xs = if is_positive max_output then take (to_ℕ max_output) xs else xs

-- What a chunker has emitted when it is closed.
pub record Whole (run_id : String) (chunk_bytes : ℕ) (max_output : ℤ) (bytes : List (Stream × ℕ))
    (c' : Chunker) (out : List Chunk) : Type 0 where
  pub all : tagged out ≡ limited max_output bytes
  pub flag : c'.truncated ≡ (is_positive max_output && ltb (to_ℕ max_output) (length bytes))
  pub numbered : IsContiguous (some 0) out
  pub last : last_seq (some 0) out ≡ some c'.seq
  pub sized : All (IsSized run_id chunk_bytes) out

new_chunker-IsOpen : (run_id : String) (cb mo : ℤ) → IsOpen (new_chunker run_id cb mo)
unfolding new_chunker
new_chunker-IsOpen run_id cb mo = positive_or-pos default_chunk_bytes cb (omega arith)

-- After any writes and ticks and a close, the chunks hold exactly the bytes that were written
-- before the first close, with their streams and in order, up to the output limit; they are
-- numbered 1, 2, … (modulo 2^64), none is empty or over the chunk size, and `Close` returns the
-- number of the last and whether the limit cut any byte.
pub run_calls-new :
    (run_id : String) (cb mo : ℤ) (cs : List Call)
    → Whole run_id
        (positive_or default_chunk_bytes cb)
        mo
        (offered cs)
        (run_calls (new_chunker run_id cb mo) (cs ++ closes ∷ [])).0
        (run_calls (new_chunker run_id cb mo) (cs ++ closes ∷ [])).1
unfolding new_chunker
run_calls-new run_id cb mo cs =
    let c = new_chunker run_id cb mo in
    let opens = new_chunker-IsOpen run_id cb mo in
    let ses =
      subst (Session c _ _) (offered-closing cs)
        (run_calls-Session c (cs ++ closes ∷ []) opens refl) in
    let empty = run_calls-closing c cs opens refl in
    let (c', out) = run_calls c (cs ++ closes ∷ []) in
    let whole : to_ℕ mo - 0 ≡ to_ℕ mo = omega arith in
    record {
      all =
          sym (append-nil (tagged out))
          ∙ ap (λ r. tagged out ++ r) (sym (ap (tag c'.pending.stream) empty))
          ∙ ses.taken
          ∙ ap (λ r. if is_positive mo then take r (offered cs) else offered cs) whole;
      flag = ses.flagged ∙ ap (λ r. is_positive mo && ltb r (length (offered cs))) whole;
      numbered = ses.numbered;
      last = ses.last;
      sized = ses.sized;
    }
