-- ===== src/WifiScan/Ht.antt =====
-- The capabilities of high throughput (802.11n) of ParseWifiScan.h, and the information about them
-- that a vendor's element carries.
pub mod Halves
use Prim.Native.Nat.{bit_and}
use Prim.Native.String.{String}
use wlan_cloud_ucentralgw.Base.{
  ℕ, ◌+◌, ◌*◌, ◌/◌, ◌%◌, ◌^◌, Bool, List, [], ◌∷◌, ◌++◌, Option, some, length, ◌==◌, drop,
  if◌then◌else◌,
}
use wlan_cloud_ucentralgw.WifiScan.Bytes.{
  Bytes, ◌>>=◌, byte_at, get_uint16, get_uint32, bit_set16, field, bit_string,
}
use wlan_cloud_ucentralgw.WifiScan.Elements.{element}
use wlan_cloud_ucentralgw.WifiScan.Json.{
  Json, boolean, number, Members, no_member, put, assign, assign_in, content_of,
}
use wlan_cloud_ucentralgw.WifiScan.Labels.{
  vals, txbf_calib_flag, txbf_feedback_flags, txbf_min_group_flags, txbf_antenna_flags,
  txbf_chan_est_flags, hta_ext_chan_offset_flag, hta_service_interval_flag, hta_operating_mode_flag,
}

-- `ParseMCSset(&data[offset], content)`.
unfoldable pub parse_mcs_set : Bytes → ℕ → Members → Option Members
unfolding byte_at
parse_mcs_set bytes offset content = do
  b0 ← byte_at bytes offset
  b1 ← byte_at bytes (offset + 1)
  b2 ← byte_at bytes (offset + 2)
  b3 ← byte_at bytes (offset + 3)
  some (
      assign_in "MCS Set"
        (("Rx Bitmask Bits 0-7", bit_string b0)
          ∷ ("Rx Bitmask Bits 8-15", bit_string b1)
          ∷ ("Rx Bitmask Bits 16-23", bit_string b2)
          ∷ ("Rx Bitmask Bits 24-31", bit_string b3)
          ∷ [])
        content)

unfoldable pub ht_capabilities_info : ℕ → List (String × Json)
ht_capabilities_info ht_caps =
    ("HT LDPC coding capability", boolean (bit_set16 ht_caps 0))
    ∷ ("HT Support channel width", boolean (bit_set16 ht_caps 1))
    ∷ ("HT Green Field", field ht_caps 0x00c0 4)
    ∷ ("HT Short GI for 20MHz", boolean (bit_set16 ht_caps 5))
    ∷ ("HT Short GI for 40MHz", boolean (bit_set16 ht_caps 6))
    ∷ ("HT Tx STBC", boolean (bit_set16 ht_caps 7))
    ∷ ("HT Rx STBC", field ht_caps 0x0300 8)
    ∷ ("HT Delayed Block ACK", boolean (bit_set16 ht_caps 11))
    ∷ ("HT Max A-MSDU length", boolean (bit_set16 ht_caps 12))
    ∷ ("HT PSMP Support", boolean (bit_set16 ht_caps 13))
    ∷ ("HT Forty MHz Intolerant", boolean (bit_set16 ht_caps 14))
    ∷ ("HT L-SIG TXOP Protection support", boolean (bit_set16 ht_caps 15))
    ∷ []

unfoldable pub ampdu_parameters : ℕ → List (String × Json)
ampdu_parameters ampduparam =
    ("Maximum Rx A-MPDU Length", number (bit_and ampduparam 0x03))
    ∷ ("MPDU Density", field ampduparam 0x1c 2)
    ∷ []

unfoldable pub ht_extended_capabilities : ℕ → ℕ → List (String × Json)
ht_extended_capabilities low high =
    ("Transmitter supports PCO", number (bit_and low 0x01))
    ∷ ("Time needed to transition between 20MHz and 40MHz", field low 0x06 1)
    ∷ ("MCS Feedback capability", number (bit_and high 0x03))
    ∷ ("High Throughput", field high 0x04 2)
    ∷ ("Reverse Direction Responder", field high 0x08 3)
    ∷ []

unfoldable pub beam_forming : ℕ → List (String × Json)
beam_forming caps =
    ("Transmit Beamforming", field caps 0x00000001 0)
    ∷ ("Receive Staggered Sounding", field caps 0x00000002 1)
    ∷ ("Transmit Staggered Sounding", field caps 0x00000004 2)
    ∷ ("Receive Null Data packet (NDP)", field caps 0x00000008 3)
    ∷ ("Transmit Null Data packet (NDP)", field caps 0x00000010 4)
    ∷ ("Implicit TxBF capable", field caps 0x00000020 5)
    ∷ ("Calibration", vals txbf_calib_flag (bit_and caps 0x000000c0 / 2 ^ 6))
    ∷ ("STA can apply TxBF using CSI explicit feedback", field caps 0x00000100 8)
    ∷ ("STA can apply TxBF using uncompressed beamforming feedback matrix", field caps 0x00000200 9)
    ∷ ("STA can apply TxBF using compressed beamforming feedback matrix", field caps 0x00000400 10)
    ∷ (
      "Receiver can return explicit CSI feedback",
      vals txbf_feedback_flags (bit_and caps 0x00001800 / 2 ^ 11),
    )
    ∷ (
      "Receiver can return explicit uncompressed Beamforming Feedback Matrix",
      vals txbf_feedback_flags (bit_and caps 0x00006000 / 2 ^ 13),
    )
    ∷ (
      "STA can compress and use compressed Beamforming Feedback Matrix",
      vals txbf_feedback_flags (bit_and caps 0x00018000 / 2 ^ 15),
    )
    ∷ (
      "Minimal grouping used for explicit feedback reports",
      vals txbf_min_group_flags (bit_and caps 0x00060000 / 2 ^ 17),
    )
    ∷ (
      "Max antennae STA can support when CSI feedback required",
      vals txbf_antenna_flags (bit_and caps 0x00180000 / 2 ^ 19),
    )
    ∷ (
      "Max antennae STA can support when uncompressed Beamforming feedback required",
      vals txbf_antenna_flags (bit_and caps 0x00600000 / 2 ^ 21),
    )
    ∷ (
      "Max antennae STA can support when compressed Beamforming feedback required",
      vals txbf_antenna_flags (bit_and caps 0x01800000 / 2 ^ 23),
    )
    ∷ (
      "Maximum number of rows of CSI explicit feedback",
      vals txbf_antenna_flags (bit_and caps 0x06000000 / 2 ^ 25),
    )
    ∷ (
      "Maximum number of space time streams for which channel dimensions can be simultaneously estimated",
      vals txbf_chan_est_flags (bit_and caps 0x18000000 / 2 ^ 27),
    )
    ∷ []

unfoldable pub antenna_selection : ℕ → List (String × Json)
antenna_selection caps =
    ("Antenna Selection Capable", field caps 0x00000001 0)
    ∷ ("Antenna Selection Capable TXCSI", field caps 0x00000002 1)
    ∷ ("Antenna Indices Feedback Based Tx ASEL", field caps 0x00000004 2)
    ∷ ("Explicit CSI Feedback", field caps 0x00000008 3)
    ∷ ("Antenna Indices Feedback", field caps 0x00000010 4)
    ∷ ("Rx ASEL", field caps 0x00000020 5)
    ∷ ("Tx Sounding PPDUs", field caps 0x00000040 6)
    ∷ []

-- The members before the set of schemes, and those behind it.
unfoldable pub ht_front : ℕ → ℕ → Members → Members
unfolding ht_capabilities_info ampdu_parameters
ht_front ht_caps ampduparam content =
    assign_in "A-MPDU Parameters" (ampdu_parameters ampduparam)
      (assign_in "HT Capabilities Info" (ht_capabilities_info ht_caps) content)

unfoldable pub ht_back : ℕ → ℕ → ℕ → ℕ → Members → Members
unfolding ht_extended_capabilities beam_forming antenna_selection
ht_back low high txbf asel content =
    assign_in "Antenna Selection (ASEL) Capabilities" (antenna_selection asel) (
      assign_in "Transmit Beam Forming (TxBF) Capabilities" (beam_forming txbf)
        (assign_in "HT Extended Capabilities" (ht_extended_capabilities low high) content))

unfoldable pub ht_capability_fields : Bytes → Members → Option Members
unfolding parse_mcs_set get_uint16 get_uint32 byte_at ht_front ht_back
ht_capability_fields bytes content = do
  (ht_caps, _) ← get_uint16 bytes 0
  ampduparam ← byte_at bytes 2
  content' ← parse_mcs_set bytes 3 (ht_front ht_caps ampduparam content)
  low ← byte_at bytes 19
  high ← byte_at bytes 20
  (txbf, _) ← get_uint32 bytes 21
  asel ← byte_at bytes 25
  some (ht_back low high txbf asel content')

unfoldable pub dissect_ht_capability_ie : Bytes → ℕ → Members → Option Members
unfolding ht_capability_fields
dissect_ht_capability_ie bytes size content =
    if size == 26 then ht_capability_fields bytes content else some content

-- `htcaps` is an `unsigned char` from its first value on: the two values of 16 bits that it gets
-- later lose their upper half.
unfoldable pub ht_info_first : ℕ → List (String × Json)
ht_info_first htcaps =
    ("Extension Channel Offset", vals hta_ext_chan_offset_flag (bit_and htcaps 0x0003))
    ∷ ("Recommended Tx Channel Width", field htcaps 0x0003 2)
    ∷ ("Reduced Interframe Spacing (RIFS) Mode", field htcaps 0x0008 3)
    ∷ ("Controlled Access Only", field htcaps 0x0010 4)
    ∷ (
      "Service Interval Granularity",
      vals hta_service_interval_flag (bit_and htcaps 0x00e0 / 2 ^ 5),
    )
    ∷ []

unfoldable pub ht_info_second : ℕ → List (String × Json)
ht_info_second htcaps =
    ("Operating Mode", vals hta_operating_mode_flag (bit_and htcaps 0x0003 / 2 ^ 0))
    ∷ ("Non Greenfield (GF) devices Present", field htcaps 0x0004 2)
    ∷ []

unfoldable pub ht_info_third : ℕ → List (String × Json)
unfolding field
ht_info_third htcaps =
    ("Basic STB Modulation and Coding Scheme (MCS)", field htcaps 0x007f 0)
    ∷ ("Dual Clear To Send (CTS) Protection", field htcaps 0x0080 7)
    ∷ ("Secondary Beacon", field htcaps 0x0100 8)
    ∷ ("L-SIG TXOP Protection Support", field htcaps 0x0200 9)
    ∷ ("Phased Coexistence Operation (PCO) Active", field htcaps 0x0400 10)
    ∷ ("Phased Coexistence Operation (PCO) Phase", field htcaps 0x0800 11)
    ∷ []

abbrev additional : String
additional = "HT Additional Capabilities"

unfoldable pub ht_info_fields : Bytes → Members → Option Members
unfolding parse_mcs_set get_uint16 byte_at ht_info_first ht_info_second ht_info_third
ht_info_fields bytes content = do
  channel ← byte_at bytes 0
  htcaps ← byte_at bytes 1
  (mode, _) ← get_uint16 bytes 2
  (basic, _) ← get_uint16 bytes 4
  parse_mcs_set bytes 6 (
      assign_in additional
        (ht_info_first htcaps ++ ht_info_second (mode % 2 ^ 8) ++ ht_info_third (basic % 2 ^ 8))
        (put "HT Control Channel" (number channel) content))

unfoldable pub dissect_ht_info_ie : Bytes → ℕ → Members → Option Members
unfolding ht_info_fields
dissect_ht_info_ie bytes size content =
    if size == 22 then ht_info_fields bytes content else some content

unfoldable pub ht_capability : Bytes → Option Json
unfolding element dissect_ht_capability_ie
ht_capability bytes = do
  content ←
      if length bytes == 26
      then dissect_ht_capability_ie bytes (length bytes) no_member
      else some no_member
  some (element "HT Capabilities" (content_of content) 45)
