-- ===== src/Names.antt =====
-- src/names.rs: names of nodes, topics and services, and names of types.
pub mod Chars
pub mod NodeName
pub mod Name
pub mod TypeName
pub mod Tests
