-- ===== src/Examples.antt =====
-- Concrete logs, nodes and a byte format on which the theorems are applied.
pub mod Codecs
pub mod Logs
pub mod Nodes
pub mod Steps
pub mod Seals
pub mod Storages
pub mod Engines
pub mod Turns
pub mod Quorums
pub mod Catching
pub mod Expiries
pub mod Valid
pub mod Texts
