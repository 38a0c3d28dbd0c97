-- ===== src/Engine.antt =====
-- internal/engine: the state machine of one physical pass over the scale.
pub mod Record
pub mod Identity
pub mod Position
pub mod Presence
pub mod Weighing
pub mod Handlers
pub mod Safety
pub mod Invariant
pub mod Receipt
pub mod Committed
pub mod Lockout
pub mod Interlock
pub mod Tickets
pub mod Overrides
