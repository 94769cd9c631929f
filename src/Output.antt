-- ===== src/Output.antt =====
-- internal/output: a run's raw output cut into chunks (chunker.go), and the chunks the server has
-- not acknowledged (buffer.go).
pub mod Chunk
pub mod Buffer
pub mod Chunker
mod Examples
