-- ===== src/Zenoh.antt =====
-- The Zenoh backend (src/zenoh_backend): key expressions and the compact form of QoS profiles.
pub mod KeyExpr
pub mod Qos
pub mod Wire
pub mod Service
pub mod PubSub
pub mod Action
pub mod Description
pub mod TypeHash
pub mod Node
pub mod Context
pub mod Tests
pub mod GraphCache
