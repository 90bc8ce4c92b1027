-- ===== src/Service.antt =====
-- Services on DDS (src/service): request ids, how requests and responses are wrapped in the three
-- mappings, and the client and server ends.
pub mod Message
pub mod Wrappers
pub mod Ends
pub mod Tests
