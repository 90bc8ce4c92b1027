-- ===== src/Discovery.antt =====
-- What a node knows and tells of other nodes on DDS (src/node.rs, src/context.rs,
-- src/entities_info.rs): matched endpoints, the wait for a match, status channels, and node infos.
pub mod Matches
pub mod Wait
pub mod Status
pub mod Entities
pub mod Context
pub mod Tests
