-- ===== src/Param.antt =====
-- Parameters of nodes: their values and wire forms, the store of a node with its parameter services
-- on DDS, and the parameter server and client on Zenoh.
pub mod Value
pub mod Store
pub mod Node
pub mod Zenoh
pub mod Tests
