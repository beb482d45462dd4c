-- ===== src/WifiScan/Ht/Halves.antt =====
-- The two values of 16 bits in the information on high throughput that a vendor's element carries.
use wlan_cloud_ucentralgw.WifiScan.Bytes.{Bytes}
