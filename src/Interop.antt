-- ===== src/Interop.antt =====
-- tools/interop: the C++ peers that the package is tested against.
pub mod Common
pub mod Server
pub mod Serving
pub mod Suffix
pub mod Client
pub mod Streaming
pub mod Passing
