-- ===== src/Server.antt =====
-- src/server.cpp: the asynchronous server.
pub mod Types
pub mod Call
pub mod Round
pub mod Api
pub mod Poll
pub mod Lifecycle
pub mod Discipline
pub mod Requests
pub mod Frame
pub mod Invariant
pub mod Freeing
pub mod Slots
pub mod Completions
pub mod Rounds
pub mod Adding
pub mod Owning
pub mod Asking
pub mod System
pub mod Life
pub mod Batch
