-- ===== src/Connection.antt =====
-- include/esphome/api/connection/ and src/connection/connection.cpp: the protocol state machine of
-- one session. `State` holds its data, `Actions` the helpers that change it, `Inbound` the dispatch
-- of a received message, `Steps` the entry points that the owner, the transport and the timers call.
pub mod State
pub mod Actions
pub mod Inbound
pub mod Steps
pub mod Rules
pub mod Moves
pub mod Entries
pub mod Lifecycle
pub mod Keepalive
pub mod Completion
pub mod Delivery
pub mod Drain
pub mod Tests
