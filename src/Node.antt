-- ===== src/Node.antt =====
-- The raidex node: raidex/raidex_node.
pub mod Offer
pub mod OfferBook
pub mod Matching
pub mod Order
pub mod Timeouts
pub mod Manager
pub mod Trades
pub mod Inbound
pub mod Grouping
pub mod Outbound
mod Examples
mod OrderExamples
