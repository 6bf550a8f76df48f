-- ===== src/Node/Order.antt =====
-- The offers of a node and the machine that they share: raidex/raidex_node/order.
pub mod Fsm
pub mod Lifecycle
pub mod Limit
