-- ===== src/Action/Server.antt =====
-- src/action/server.rs: the state of `AsyncActionServer` and its handlers, each by a function that
-- returns the new state and what the handler returns.
pub mod State
pub mod Sections
pub mod Handlers
pub mod Cancel
pub mod Run
pub mod Frame
pub mod Invariant
pub mod Lifecycle
pub mod Outcome
pub mod Tests
