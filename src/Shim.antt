-- ===== src/Shim.antt =====
-- src/shim.cpp: the gRPC objects that R holds by external pointers, and the lifetime of the library.
pub mod Handles
pub mod Contract
pub mod Ownership
pub mod Lifetimes
pub mod Library
