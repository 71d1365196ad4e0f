-- ===== src/Controller.antt =====
-- internal/controller: the Controller's state transitions.
pub mod Usage
pub mod Releases
pub mod Nodes
pub mod Upgrades
pub mod Retired
