-- ===== src/WifiScan.antt =====
-- The parser of Wifi scans, ParseWifiScan.h: the information elements that an access point heard
-- are decoded to JSON, one after the other.
pub mod Json
pub mod Bytes
pub mod Labels
pub mod Elements
pub mod Rates
pub mod Envelope
pub mod Ht
pub mod Vht
pub mod Rsn
pub mod Wpa
pub mod Vendor
pub mod Scan
pub mod Reads
pub mod Bounds
pub mod At
pub mod Bits
mod Tests
