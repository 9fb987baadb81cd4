-- ===== src/Upload.antt =====
-- The upload side of the client (frontend/src): its data, its arithmetic and its protocol.
pub mod Types
pub mod FileKey
pub mod Progress
pub mod Requests
pub mod Retry
pub mod Engine
pub mod Complete
pub mod Snapshot
