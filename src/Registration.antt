-- ===== src/Registration.antt =====
-- src/routines.h, src/init.cpp and src/stub.cpp: the table of routines, and the build without gRPC.
pub mod Table
pub mod Calls
pub mod Callers
