-- ===== src/Radius.antt =====
-- RADIUS packets, RADIUS_helpers.h.
pub mod Parse
pub mod Wire
pub mod Packet
mod Tests
