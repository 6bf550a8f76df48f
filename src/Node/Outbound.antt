-- ===== src/Node/Outbound.antt =====
-- What a node makes of the events that it dispatches: `_dispatch` of
-- raidex/raidex_node/architecture/event_architecture.py, the four consumers that raidex/app.py
-- connects, the client of the commitment service, the transport and the trader client, with the
-- `handle_event` of each.
pub mod Events
pub mod Trading
pub mod Run
mod Examples
