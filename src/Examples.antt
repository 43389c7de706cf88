-- ===== src/Examples.antt =====
-- The theorems at concrete inputs, and tests.
mod Nodes
mod Core
mod Logs
mod Stores
mod Protocol
mod Acks
mod Driver
mod Clients
mod Nets
mod Sims
mod Lone
