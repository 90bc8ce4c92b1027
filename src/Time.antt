-- ===== src/Time.antt =====
-- Time: the wire types, the in-memory clock types and the steady clock.
pub mod Builtin
pub mod Steady
pub mod Ros
