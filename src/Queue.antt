-- ===== src/Queue.antt =====
-- hooks/useUploadQueue.ts: the queue of files, its run of two workers, and the user's actions.
pub mod State
pub mod Actions
pub mod Run
pub mod Speed
pub mod Machine
pub mod Slots
pub mod Numbers
pub mod Invariant
pub mod Cancellation
pub mod Keys
