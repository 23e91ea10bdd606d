-- ===== src/Client.antt =====
-- src/client.cpp: the asynchronous client.
pub mod Types
pub mod Stream
pub mod Completion
pub mod Api
pub mod Poll
pub mod Lifecycle
pub mod Frame
pub mod Invariant
pub mod Readiness
pub mod Life
pub mod Adding
pub mod System
