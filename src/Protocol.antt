-- ===== src/Protocol.antt =====
-- The node and the commitment service together: what a node makes of its events
-- (raidex/raidex_node) is what the service takes (raidex/commitment_service).
pub mod Follow
pub mod Inputs
pub mod Swap
pub mod Settle
mod Examples
