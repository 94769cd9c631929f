-- ===== src/Output/Chunk.antt =====
-- The chunk of internal/output/chunker.go, with the stream of internal/runner/runner.go.
use omj_agent.Base.{ℕ, String, List, length}

pub data Stream : Type 0 where
  stdout stderr : Stream

-- `payload` is the field `Data`, a list of bytes.
pub record Chunk : Type 0 where
  pub run_id : String
  pub seq : ℕ
  pub stream : Stream
  pub at : ℕ
  pub payload : List ℕ

-- `len(chunk.Data)`
abbrev pub size_of : Chunk → ℕ
size_of c = length c.payload
