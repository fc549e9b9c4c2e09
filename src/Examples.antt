-- ===== src/Examples.antt =====
-- Concrete objects and libraries, on which the theorems are applied.
pub mod Objects
pub mod Webhooks
pub mod Pods
pub mod Policies
pub mod Volumes
pub mod Upgrades
pub mod Versioned
pub mod Queues
pub mod Health
pub mod Startups
pub mod Coverings
pub mod Rounds
pub mod Services
pub mod Turns
