-- ===== src/Examples.antt =====
-- Runs of the modelled code on concrete inputs, and each result at one of them.
pub mod Database
pub mod Journals
pub mod Checkpoints
pub mod Policies
pub mod Gateways
pub mod Breakers
pub mod Registries
pub mod KillSwitches
pub mod ModelGateways
pub mod Bundles
pub mod StepIdentities
pub mod Ledgers
pub mod DecideRoutes
pub mod RunControls
