-- ===== src/WifiScan/Vht.antt =====
-- The elements of ParseWifiScan.h that are tables of bits: very high throughput (802.11ac), radio
-- measurements and extended capabilities.
use Prim.Native.Nat.{bit_and}
use Prim.Native.String.{String}
use wlan_cloud_ucentralgw.Base.{
  ℕ, ◌/◌, ◌^◌, List, [], ◌∷◌, ◌++◌, Option, some, length, ◌==◌, if◌then◌else◌,
}
use wlan_cloud_ucentralgw.WifiScan.Bytes.{Bytes, ◌>>=◌, byte_at, get_uint32, field, fields}
use wlan_cloud_ucentralgw.WifiScan.Elements.{element}
use wlan_cloud_ucentralgw.WifiScan.Ht.{parse_mcs_set}
use wlan_cloud_ucentralgw.WifiScan.Json.{Json, Members, no_member, assign_in, content_of}
use wlan_cloud_ucentralgw.WifiScan.Labels.{
  vals, vht_max_mpdu_length_flag, vht_supported_chan_width_set_flag, vht_rx_stbc_flag,
  num_plus_one_3bit_flag, vht_max_ampdu_flag, vht_link_adapt_flag,
  service_interval_granularity_vals,
}

unfoldable pub vht_capabilities_info : ℕ → List (String × Json)
vht_capabilities_info caps =
    ("Maximum MPDU Length", vals vht_max_mpdu_length_flag (bit_and caps 0x00000003 / 2 ^ 0))
    ∷ (
      "Supported Channel Width Set",
      vals vht_supported_chan_width_set_flag (bit_and caps 0x0000000c / 2 ^ 2),
    )
    ∷ ("Rx LDPC", field caps 0x00000010 4)
    ∷ ("Short GI for 80MHz", field caps 0x00000020 5)
    ∷ ("Short GI for 160MHz and 80+80MHz", field caps 0x00000040 6)
    ∷ ("Tx STBC", field caps 0x00000080 7)
    ∷ ("Rx STBC", vals vht_rx_stbc_flag (bit_and caps 0x00000700 / 2 ^ 8))
    ∷ ("SU Beam-former Capable", field caps 0x00000800 11)
    ∷ ("SU Beam-formee Capable", field caps 0x00001000 12)
    ∷ (
      "Compressed Steering Number of Beamformer Antennas Supported",
      vals num_plus_one_3bit_flag (bit_and caps 0x0000e000 / 2 ^ 13),
    )
    ∷ (
      "Number of Sounding Dimensions",
      vals num_plus_one_3bit_flag (bit_and caps 0x00070000 / 2 ^ 16),
    )
    ∷ ("MU Beam-former Capable", vals num_plus_one_3bit_flag (bit_and caps 0x00080000 / 2 ^ 17))
    ∷ ("MU Beam-formee Capable", field caps 0x00200000 18)
    ∷ ("VHT TXOP PS", field caps 0x00400000 19)
    ∷ ("HTC-VHT Capable VHT variant HT Control field", field caps 0x00400000 20)
    ∷ ("Max A-MPDU Length", vals vht_max_ampdu_flag (bit_and caps 0x03800000 / 2 ^ 21))
    ∷ ("VHT Link Adaptation", vals vht_link_adapt_flag (bit_and caps 0x0c000000 / 2 ^ 24))
    ∷ ("Rx Antenna Pattern Consistency", field caps 0x10000000 28)
    ∷ ("Tx Antenna Pattern Consistency", field caps 0x20000000 29)
    ∷ []

unfoldable pub vht_fields : Bytes → Option Members
unfolding parse_mcs_set get_uint32 vht_capabilities_info
vht_fields bytes = do
  (caps, offset) ← get_uint32 bytes 0
  parse_mcs_set bytes offset
      (assign_in "VHT Capabilities Info" (vht_capabilities_info caps) no_member)

unfoldable pub vht_capability : Bytes → Option Json
unfolding element vht_fields
vht_capability bytes = do
  content ← if length bytes == 12 then vht_fields bytes else some no_member
  some (element "VHT Capabilities Info" (content_of content) 191)

unfoldable pub rm_capabilities : ℕ → ℕ → ℕ → ℕ → ℕ → List (String × Json)
unfolding fields
rm_capabilities b0 b1 b2 b3 b4 =
    fields b0 0 (
      "Link Measurement" ∷ "Neighbor Report" ∷ "Parallel Measurements" ∷ "Repeated Measurements"
      ∷ "Beacon Passive Measurement" ∷ "Beacon Active Measurement" ∷ "Beacon Table Measurement"
      ∷ "Beacon Measurement Reporting Conditions" ∷ [])
    ++ fields b1 0 (
        "Frame Measurement" ∷ "Channel Load Measurement" ∷ "Noise Histogram Measurement"
        ∷ "Statistics Measurement" ∷ "LCI Measurement" ∷ "LCI Azimuth capability"
        ∷ "Transmit Stream/Category Measurement" ∷ "Triggered Transmit Stream/Category Measurement"
        ∷ [])
    ++ (("AP Channel Report capability", field b2 0x00000007 0)
        ∷ ("RM MIB capability", field b2 0x00000002 1)
        ∷ ("Operating Channel Max Measurement Duration", field b2 0x0000001c 2)
        ∷ ("Nonoperating Channel Max Measurement Duration", field b2 0x000000e0 5)
        ∷ ("Measurement Pilotcapability", field b3 0x00000007 0)
        ∷ fields b3 3 (
            "RM MIB capability" ∷ "Neighbor Report TSF Offset" ∷ "RCPI Measurement capability"
            ∷ "RSNI Measurement capability" ∷ "BSS Average Access Delay capability" ∷ []))
    ++ fields b4 0 ("BSS Available Admission Capacity capability" ∷ "Antenna capability" ∷ [])

unfoldable pub rrm_fields : Bytes → Option Members
unfolding rm_capabilities byte_at
rrm_fields bytes = do
  b0 ← byte_at bytes 0
  b1 ← byte_at bytes 1
  b2 ← byte_at bytes 2
  b3 ← byte_at bytes 3
  b4 ← byte_at bytes 4
  some (assign_in "RM Capabilities" (rm_capabilities b0 b1 b2 b3 b4) no_member)

unfoldable pub rrm_enabled_capabilities : Bytes → Option Json
unfolding element rrm_fields
rrm_enabled_capabilities bytes = do
  content ← if length bytes == 5 then rrm_fields bytes else some no_member
  some (element "RM Capabilities" (content_of content) 70)

-- What the source assigns for each byte, as long as there are bytes.
abbrev Row : Type 0
Row = ℕ → List (String × Json)

unfoldable pub extended_rows : List Row
unfolding fields
extended_rows =
    (λ b. fields b 0 (
      "20/40 BSS Coexistence Management Support" ∷ "On-demand beacon" ∷ "Extended Channel Switching"
      ∷ "WAVE indication" ∷ "PSMP Capability" ∷ "Reserved" ∷ "S-PSMP Support" ∷ "Event" ∷ []))
    ∷ (λ b. fields b 0 (
        "Diagnostics" ∷ "Multicast Diagnostics" ∷ "Location Tracking" ∷ "FMS" ∷ "Proxy ARP Service"
        ∷ "Collocated Interference Reporting" ∷ "Civic Location" ∷ "Geospatial Location" ∷ []))
    ∷ (λ b. fields b 0 (
        "TFS" ∷ "WNM-Sleep Mode" ∷ "TIM Broadcast" ∷ "BSS Transition" ∷ "QoS Traffic Capability"
        ∷ "AC Station Count" ∷ "Multiple BSSID" ∷ "Timing Measurement" ∷ []))
    ∷ (λ b. fields b 0 (
        "Channel Usage" ∷ "SSID List" ∷ "DMS" ∷ "UTC TSF Offset" ∷ "Peer U-APSD Buffer STA Support"
        ∷ "TDLS Peer PSM Support" ∷ "TDLS channel switching" ∷ "Interworking" ∷ []))
    ∷ (λ b. fields b 0 (
        "QoS Map" ∷ "EBR" ∷ "SSPN Interface" ∷ "Reserved" ∷ "MSGCF Capability" ∷ "TDLS support"
        ∷ "TDLS Prohibited" ∷ "TDLS Channel Switching Prohibited" ∷ []))
    ∷ (λ b.
        ("Reject Unadmitted Frame", field b 0x01 0)
        ∷ (
          "Service Interval Granularity",
          vals service_interval_granularity_vals (bit_and b 0x0e / 2 ^ 1),
        )
        ∷ fields b 4
            ("Identifier Location" ∷ "U-APSD Coexistence" ∷ "WNM-Notification" ∷ "Reserved" ∷ []))
    ∷ (λ b. fields b 0 ("UTF-8 SSID" ∷ []))
    ∷ []

-- `if (offset < data.size())` for one byte after the other.
unfoldable pub extended_fields : List Row → Bytes → Members → Members
extended_fields [] bytes content = content
extended_fields (row ∷ rows) [] content = content
extended_fields (row ∷ rows) (b ∷ bytes) content =
    extended_fields rows bytes (assign_in "Extended Capabilities" (row b) content)

unfoldable pub ext_capability : Bytes → Json
unfolding element extended_rows extended_fields
ext_capability bytes =
    element "Extended Capabilities" (content_of (extended_fields extended_rows bytes no_member)) 127
