-- ===== src/Action.antt =====
-- Actions of the DDS backend: message types (src/action_msgs.rs, src/action.rs), the asynchronous action
-- server (src/action/server.rs), the client (src/action/client.rs) and the raw server
-- (src/action/raw_server.rs).
pub mod Msgs
pub mod Types
pub mod Server
pub mod Client
pub mod RawServer
