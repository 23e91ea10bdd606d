-- ===== src/Channel.antt =====
-- src/client.cpp and src/server.cpp: credentials and channel arguments, in `grpc_r_client_create` and
-- `grpc_r_server2_create`.
pub mod Arguments
pub mod Creation
pub mod Agreement
