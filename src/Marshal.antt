-- ===== src/Marshal.antt =====
-- src/common.h, and the ends of grpc_r_client_poll and grpc_r_server2_poll: R values, and the events of
-- a batch as R lists.
pub mod Values
pub mod Readers
pub mod ClientEvents
pub mod ClientBatch
pub mod ServerEvents
pub mod ServerBatch
