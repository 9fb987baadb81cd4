-- ===== src/Upload/Engine.antt =====
-- features/upload/engine.ts: one file's protocol and the scheduling of its chunks.
pub mod State
pub mod Workers
pub mod Protocol
pub mod Ledger
pub mod Invariant
pub mod Turns
pub mod Steps
pub mod Chunks
pub mod Completion
pub mod Halting
pub mod Forward
