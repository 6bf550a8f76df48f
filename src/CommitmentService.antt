-- ===== src/CommitmentService.antt =====
-- The commitment service: raidex/commitment_service.
pub mod Data
pub mod Callbacks
pub mod Table
pub mod Step
pub mod Invariant
pub mod Escrow
pub mod Progress
pub mod Refunds
pub mod Service
mod Examples
