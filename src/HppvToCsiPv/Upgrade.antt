-- ===== src/HppvToCsiPv/Upgrade.antt =====
-- pkg/hppvtocsipv/hostpthpvupdate.go: the upgrade of the existing host path volumes, a pipeline of
-- steps with undo actions for each volume, and the manager that runs the pipelines.
pub mod Engine
pub mod Brackets
pub mod Cluster
pub mod Store
pub mod Steps
pub mod Claim
pub mod Rollback
pub mod Manager
pub mod Completion
pub mod Frame
pub mod Success
pub mod Service
