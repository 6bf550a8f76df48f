-- ===== src/Node/Inbound.antt =====
-- What a node hears from its Raiden node: raidex/raidex_node/trader/listener and
-- raidex/raidex_node/architecture/filter.py. Payments are polled and dispatched, each id once; the
-- filters that wait for them make state changes of them.
pub mod Polling
pub mod Filters
mod Examples
