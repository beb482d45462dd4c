-- ===== src/WifiScan/Wpa.antt =====
-- The elements of WPA and of WME, of ParseWifiScan.h. `b` are the bytes behind the organisation's
-- three.
pub mod Overrun
pub mod RoundTrip
use Prim.Native.Nat.{bit_and}
use Prim.Native.String.{String}
use wlan_cloud_ucentralgw.Base.{
  ℕ, zero, suc, ◌+◌, ◌-◌, ◌*◌, ◌%◌, ◌/◌, ◌^◌, List, [], ◌∷◌, ◌++◌, Option, some, length, drop, leb,
  ltb, ◌==◌, if◌then◌else◌,
}
use wlan_cloud_ucentralgw.WifiScan.Bytes.{
  Bytes, ◌>>=◌, byte_at, get_uint16, get_uint32, get_uint24, get_uint24_big, buffer_to_hex, field,
}
use wlan_cloud_ucentralgw.WifiScan.Elements.{element}
use wlan_cloud_ucentralgw.WifiScan.Ht.{dissect_ht_capability_ie, dissect_ht_info_ie}
use wlan_cloud_ucentralgw.WifiScan.Json.{
  Json, null, number, array, object, Members, no_member, items, put, assign, assign_in, content_of,
}
use wlan_cloud_ucentralgw.WifiScan.Labels.{
  label, vals, ieee802111_wfa_ie_type_vals, ieee80211_wfa_ie_wpa_cipher_vals,
  ieee80211_wfa_ie_wpa_keymgmt_vals, ieee802111_wfa_ie_wme_type, sta_max_sp_length_vals,
  ieee80211_wfa_ie_wme_acs_vals, tsinfo_direction_vals, tsinfo_psb_vals, tsinfo_up_vals,
}
use wlan_cloud_ucentralgw.WifiScan.Rsn.{Suite, suite_type, suites}

-- The frame is taken for a probe request, so that only this case is alive.
unfoldable pub dissect_qos_info : Bytes → ℕ → Option Json
unfolding byte_at
dissect_qos_info bytes offset = if leb (length bytes) offset then some null else (do
  b ← byte_at bytes offset
  some (
      content_of (
        assign_in "WME QoS Info"
          (("Max SP Length", vals sta_max_sp_length_vals (bit_and b 0x60 / 2 ^ 5))
            ∷ ("AC_BE", field b 0x08 3)
            ∷ ("AC_BK", field b 0x04 2)
            ∷ ("AC_VI", field b 0x02 1)
            ∷ ("AC_VO", field b 0x01 0)
            ∷ [])
          no_member)))

abbrev pub unicast_suite : Suite
unicast_suite = record {
  oui_key = "Unicast Cipher Suite OUI";
  type_key = "Unicast Cipher Suite type";
  known = 0x0050F2;
  names = ieee80211_wfa_ie_wpa_cipher_vals;
  separator = b' ';
}

abbrev pub wpa_akm_suite : Suite
wpa_akm_suite = record {
  oui_key = "Auth Key Management (AKM) OUI";
  type_key = "Auth Key Management (AKM) type";
  known = 0x0050F2;
  names = ieee80211_wfa_ie_wpa_keymgmt_vals;
  separator = b' ';
}

-- A count and as many suites; that the bytes hold them is not tested.
unfoldable pub listed_suites : Suite → Bytes → ℕ → Option (ℕ × List Json × ℕ)
unfolding get_uint16 suites
listed_suites k bytes offset = do
  (count, behind) ← get_uint16 bytes offset
  list ← suites count k bytes behind
  some (count, list, behind + count * 4)

-- The second list is stored under the name of the first.
unfoldable pub wpa : Bytes → Members → Option Members
unfolding get_uint16 get_uint24_big suite_type listed_suites
wpa b ie = do
  (version, o1) ← get_uint16 b 1
  (oui, o2) ← get_uint24_big b o1
  kind ← suite_type unicast_suite oui b o2
  (ucs_count, list, o3) ← listed_suites unicast_suite b (o2 + 1)
  (akms_count, list2, o4) ← listed_suites wpa_akm_suite b o3
  some (
      assign
        (("WPA Version", number version)
          ∷ ("Multicast Cipher Suite type", kind)
          ∷ ("Unicast Cipher Suite Count", number ucs_count)
          ∷ ("Unicast Cipher Suite List", array (items list))
          ∷ ("Auth Key Management (AKM) Suite Count", number akms_count)
          ∷ ("Unicast Cipher Suite List", array (items list2))
          ∷ [])
        ie)

-- `for (i = 0; i < 4; i++)`: four bytes of each class of access.
unfoldable pub ac_parameters : ℕ → Bytes → ℕ → Option (List Json)
unfolding byte_at
ac_parameters zero b offset = some []
ac_parameters (suc rounds) b offset = do
  aci ← byte_at b offset
  ecw ← byte_at b (offset + 1)
  low ← byte_at b (offset + 2)
  high ← byte_at b (offset + 3)
  rest ← ac_parameters rounds b (offset + 4)
  some (
      content_of (
        assign
          (("ACI", vals ieee80211_wfa_ie_wme_acs_vals (bit_and aci 0x60 / 2 ^ 5))
            ∷ ("Admission Control Mandatory", field aci 0x10 4)
            ∷ ("AIFSN", field aci 0x0f 5)
            ∷ ("ECW Max", field ecw 0xf0 4)
            ∷ ("ECW Min", field ecw 0x0f 0)
            ∷ ("TXOP Limit", number (low + high * 256))
            ∷ [])
          no_member)
      ∷ rest)

-- One value behind the other.
unfoldable pub uint16_fields : List String → Bytes → ℕ → Option (List (String × Json))
unfolding get_uint16
uint16_fields [] b offset = some []
uint16_fields (name ∷ names) b offset = do
  (v, behind) ← get_uint16 b offset
  rest ← uint16_fields names b behind
  some ((name, number v) ∷ rest)

unfoldable pub uint32_fields : List String → Bytes → ℕ → Option (List (String × Json))
unfolding get_uint32
uint32_fields [] b offset = some []
uint32_fields (name ∷ names) b offset = do
  (v, behind) ← get_uint32 b offset
  rest ← uint32_fields names b behind
  some ((name, number v) ∷ rest)

unfoldable pub tspec : Bytes → ℕ → Members → Option Members
unfolding get_uint24 uint16_fields uint32_fields
tspec b offset ie = do
  (tid, o) ← get_uint24 b offset
  sizes ← uint16_fields ("Normal MSDU Size" ∷ "Maximum MSDU Size" ∷ []) b o
  rates ←
      uint32_fields
        ("Minimum Service Interval" ∷ "Maximum Service Interval" ∷ "Inactivity Interval"
          ∷ "Suspension Interval" ∷ "Service Start Time" ∷ "Minimum Data Rate" ∷ "Mean Data Rate"
          ∷ "Peak Data Rate" ∷ "Burst Size" ∷ "Delay Bound" ∷ "Minimum PHY Rate" ∷ [])
        b (o + 4)
  times ← uint16_fields ("Surplus Bandwidth Allowance" ∷ "Medium Time" ∷ []) b (o + 48)
  some (
      assign_in "TS Info"
        ((("TID", field tid 0x00001E 1)
            ∷ ("Direction", vals tsinfo_direction_vals (bit_and tid 0x000060 / 2 ^ 5))
            ∷ ("PSB", vals tsinfo_psb_vals (bit_and tid 0x000400 / 2 ^ 10))
            ∷ ("UP", vals tsinfo_up_vals (bit_and tid 0x003800 / 2 ^ 11))
            ∷ [])
          ++ sizes
          ++ rates
          ++ times)
        ie)

unfoldable pub wme : Bytes → Members → Option Members
unfolding byte_at dissect_qos_info ac_parameters tspec
wme b ie = do
  sub_type ← byte_at b 1
  version ← byte_at b 2
  let ie' =
      assign
        (("WME Subtype", vals ieee802111_wfa_ie_wme_type sub_type)
          ∷ ("WME Version", number version)
          ∷ [])
        ie
  if sub_type == 0
      then (do qos ← dissect_qos_info b 3; some (put "WME QoS Info" qos ie'))
      else if sub_type == 1
      then (do
        qos ← dissect_qos_info b 3
        list ← ac_parameters 4 b 5
        some (
            assign_in "Ac Parameters" (("ACI / AIFSN Field", array (items list)) ∷ [])
              (put "WME QoS Info" qos ie')))
      else if sub_type == 2
      then tspec b 3 ie'
      else some ie'

unfoldable pub dissect_wpawme : Bytes → ℕ → Option Members
unfolding byte_at wpa wme buffer_to_hex
dissect_wpawme b l = do
  type ← byte_at b 0
  let ie =
      assign
        (("vendor", label "Wi-Fi : WPA / WME")
          ∷ ("type", vals ieee802111_wfa_ie_type_vals type)
          ∷ [])
        no_member
  if ltb 1 l
      then if type == 1
        then wpa b ie
        else if type == 2
        then wme b ie
        else if type == 4
        then (do dump ← buffer_to_hex b 1 (l - 1) b' '; some (put "TLV Block" dump ie))
        else (do dump ← buffer_to_hex b 1 (l - 1) b' '; some (put "Data" dump ie))
      else some ie
