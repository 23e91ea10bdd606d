-- ===== src/Tests.antt =====
-- Runs of the models at concrete inputs, and the theorems applied to them.
mod Clients
mod Servers
mod Helpers
mod Shims
mod Peers
