-- ===== src/ApConnection.antt =====
-- One connection of an access point, AP_WS_Connection.h and AP_WS_Connection.cpp, in parts:
-- telemetry, the configurations that are sent to the device, the frames that arrive, and the events
-- in them.
pub mod Telemetry
pub mod Upgrade
pub mod Link
pub mod Connect
pub mod Events
pub mod Frames
pub mod Kept
pub mod Admitted
pub mod Ends
pub mod Introduced
pub mod Assembly
mod Tests
