-- ===== src/Output/Buffer/History.antt =====
-- The buffer under any sequence of calls.
use omj_agent.Base.{ℕ, refl, String, List, [], ◌∷◌, arith}
use omj_agent.Output.Chunk.{Chunk}
use omj_agent.Output.Buffer.{Buffer, BufferOptions, Runs, new_buffer, add, ack_up_to, forget}
use omj_agent.Output.Buffer.Sizes.{IsValid}
use omj_agent.Output.Buffer.Largest.{IsVisit}
use omj_agent.Output.Buffer.Adding.{add-IsValid}
use omj_agent.Output.Buffer.Acknowledged.{ack_up_to-IsValid, forget-IsValid}

-- A call that changes the buffer; one to `Add` with the orders of its map ranges.
pub data Call : Type 0 where
  adds : (ℕ → Runs → Runs) → Chunk → Call
  acks : String → ℕ → Call
  forgets : String → Call

abbrev pub IsCall : Call → Type 0
IsCall (adds visit c) = IsVisit visit
IsCall (acks k seq) = Unit
IsCall (forgets k) = Unit

abbrev pub AreCalls : List Call → Type 0
AreCalls [] = Unit
AreCalls (c ∷ cs) = IsCall c × AreCalls cs

unfoldable pub call : Buffer → Call → Buffer
call b (adds visit c) = add visit c b
call b (acks k seq) = ack_up_to k seq b
call b (forgets k) = forget k b

unfoldable pub run_calls : Buffer → List Call → Buffer
run_calls b [] = b
run_calls b (c ∷ cs) = run_calls (call b c) cs

call-IsValid : (b : Buffer) (c : Call) → IsCall c → IsValid b → IsValid (call b c)
unfolding call
call-IsValid b (adds visit c) ok v = add-IsValid visit ok c b v
call-IsValid b (acks k seq) ok v = ack_up_to-IsValid k seq b v
call-IsValid b (forgets k) ok v = forget-IsValid k b v

run_calls-IsValid :
    (b : Buffer) (cs : List Call) → AreCalls cs → IsValid b → IsValid (run_calls b cs)
unfolding run_calls
run_calls-IsValid b [] ok v = v
run_calls-IsValid b (c ∷ cs) ok v = run_calls-IsValid (call b c) cs ok.1 (call-IsValid b c ok.0 v)

new_buffer-IsValid : (o : BufferOptions) → IsValid (new_buffer o)
unfolding new_buffer
new_buffer-IsValid o = record { distinct = tt; counted = tt; sized = refl; within = omega arith }

-- From a new buffer, every sequence of calls keeps the counts exact and the bytes held by all
-- runs together within the global cap, in whatever orders the map is visited.
pub run_calls-new-IsValid :
    (o : BufferOptions) (cs : List Call) → AreCalls cs → IsValid (run_calls (new_buffer o) cs)
run_calls-new-IsValid o cs ok = run_calls-IsValid (new_buffer o) cs ok (new_buffer-IsValid o)
