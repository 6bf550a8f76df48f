-- ===== src/Node/Grouping.antt =====
-- The grouping of offers and trades for the API: raidex/raidex_node/offer_grouping.py. Its decimals
-- are a parameter, as the floats are.
pub mod Upsert
pub mod Offers
pub mod Times
pub mod Bins
pub mod TradeGroups
mod Examples
