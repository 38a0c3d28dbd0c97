-- ===== src/Domain.antt =====
-- internal/domain: the data of the controller and its pure decisions.
pub mod Types
pub mod Device
pub mod Workflow
pub mod State
pub mod Policy
pub mod Cycle
pub mod WeighCycle
pub mod RawWeight
pub mod Pairing
