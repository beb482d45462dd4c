-- ===== src/WifiScan/Labels.antt =====
-- The tables of ParseWifiScan.h that give a value its text, and their lookup.
use Prim.Native.Char.{code}
use Prim.Native.String.{String}
use wlan_cloud_ucentralgw.Base.{ℕ, suc, List, [], ◌∷◌, Option, none, some, ◌==◌, if◌then◌else◌}
use wlan_cloud_ucentralgw.Base.Table.{Text}
use wlan_cloud_ucentralgw.WifiScan.Json.{Json, string}

-- The bytes of a text of ASCII characters.
unfoldable pub codes : String → Text
codes String.[] = []
codes (String.◌∷◌ c s) = code c ∷ codes s

unfoldable pub label : String → Json
unfolding codes
label s = string (codes s)

-- `value_string`; the text of the last entry is a null pointer.
abbrev pub ValueString : Type 0
ValueString = List (ℕ × Option String)

unfoldable pub vals : ValueString → ℕ → Json
unfolding label
vals [] v = label "unknown"
vals ((k, none) ∷ rest) v = vals rest v
vals ((k, some s) ∷ rest) v = let later = vals rest v in if k == v then label s else later

-- Entries for the numbers from `first` on, and the last entry.
unfoldable pub numbered : ℕ → List String → ValueString
numbered first [] = (0, none) ∷ []
numbered first (s ∷ rest) = (first, some s) ∷ numbered (suc first) rest

abbrev pub txbf_antenna_flags : ValueString
unfolding numbered
txbf_antenna_flags = numbered 0 (
    "1 TX antenna sounding" ∷ "2 TX antenna sounding" ∷ "3 TX antenna sounding"
    ∷ "4 TX antenna sounding" ∷ [])

abbrev pub txbf_feedback_flags : ValueString
unfolding numbered
txbf_feedback_flags = numbered 0 (
    "not supported" ∷ "delayed feedback capable" ∷ "immediate feedback capable"
    ∷ "delayed and immediate feedback capable" ∷ [])

abbrev pub txbf_calib_flag : ValueString
unfolding numbered
txbf_calib_flag = numbered 0 (
    "incapable" ∷ "Limited involvement, cannot initiate" ∷ "Limited involvement, can initiate"
    ∷ "Fully capable" ∷ [])

abbrev pub txbf_chan_est_flags : ValueString
unfolding numbered
txbf_chan_est_flags = numbered 0 (
    "1 space time stream" ∷ "2 space time streams" ∷ "3 space time streams" ∷ "4 space time streams"
    ∷ [])

abbrev pub txbf_min_group_flags : ValueString
unfolding numbered
txbf_min_group_flags = numbered 0 (
    "No grouping supported" ∷ "Groups of 1,2 supported" ∷ "Groups of 1,4 supported"
    ∷ "Groups of 1,2,4 supported" ∷ [])

abbrev pub vht_max_mpdu_length_flag : ValueString
unfolding numbered
vht_max_mpdu_length_flag = numbered 0 ("3 895" ∷ "7 991" ∷ "11 454" ∷ "Reserved" ∷ [])

abbrev pub vht_supported_chan_width_set_flag : ValueString
unfolding numbered
vht_supported_chan_width_set_flag = numbered 0 (
    "Neither 160MHz nor 80+80 supported" ∷ "160MHz supported" ∷ "160MHz and 80+80 Supported"
    ∷ "Reserved" ∷ [])

-- The entry for 2 stands twice; the lookup stops at the first.
abbrev pub vht_rx_stbc_flag : ValueString
unfolding numbered
vht_rx_stbc_flag =
    (0, some "None")
    ∷ (1, some "1 Spatial Stream Supported")
    ∷ (2, some "1 to 2 Spatial Stream Supported")
    ∷ (3, some "1 to 3 Spatial Stream Supported")
    ∷ (4, some "1 to 4 Spatial Stream Supported")
    ∷ (2, some "160MHz and 80+80 Supported")
    ∷ numbered 5 ("Reserved" ∷ "Reserved" ∷ "Reserved" ∷ [])

abbrev pub num_plus_one_3bit_flag : ValueString
unfolding numbered
num_plus_one_3bit_flag = numbered 0 ("1" ∷ "2" ∷ "3" ∷ "4" ∷ "5" ∷ "6" ∷ "7" ∷ "8" ∷ [])

abbrev pub vht_max_ampdu_flag : ValueString
unfolding numbered
vht_max_ampdu_flag = numbered 0 (
    "8 191" ∷ "16 383" ∷ "32 767" ∷ "65,535" ∷ "131 071" ∷ "262 143" ∷ "524 287" ∷ "1 048 575" ∷ [])

abbrev pub vht_link_adapt_flag : ValueString
unfolding numbered
vht_link_adapt_flag = numbered 0 (
    "No Feedback" ∷ "Reserved (logically only solicited feedback)" ∷ "Unsolicited feedback only"
    ∷ "Both (can provide unsolicited feedback and respond to VHT MRQ)" ∷ [])

abbrev pub ieee80211_supported_rates_vals : ValueString
ieee80211_supported_rates_vals =
    (0x02, some "1")
    ∷ (0x03, some "1.5")
    ∷ (0x04, some "2")
    ∷ (0x05, some "2.5")
    ∷ (0x06, some "3")
    ∷ (0x09, some "4.5")
    ∷ (0x0B, some "5.5")
    ∷ (0x0C, some "6")
    ∷ (0x12, some "9")
    ∷ (0x16, some "11")
    ∷ (0x18, some "12")
    ∷ (0x1B, some "13.5")
    ∷ (0x24, some "18")
    ∷ (0x2C, some "22")
    ∷ (0x30, some "24")
    ∷ (0x36, some "27")
    ∷ (0x42, some "33")
    ∷ (0x48, some "36")
    ∷ (0x60, some "48")
    ∷ (0x6C, some "54")
    ∷ (0x82, some "1(B)")
    ∷ (0x83, some "1.5(B)")
    ∷ (0x84, some "2(B)")
    ∷ (0x85, some "2.5(B)")
    ∷ (0x86, some "3(B)")
    ∷ (0x89, some "4.5(B)")
    ∷ (0x8B, some "5.5(B)")
    ∷ (0x8C, some "6(B)")
    ∷ (0x92, some "9(B)")
    ∷ (0x96, some "11(B)")
    ∷ (0x98, some "12(B)")
    ∷ (0x9B, some "13.5(B)")
    ∷ (0xA4, some "18(B)")
    ∷ (0xAC, some "22(B)")
    ∷ (0xB0, some "24(B)")
    ∷ (0xB6, some "27(B)")
    ∷ (0xC2, some "33(B)")
    ∷ (0xC8, some "36(B)")
    ∷ (0xE0, some "48(B)")
    ∷ (0xEC, some "54(B)")
    ∷ (0xFF, some "BSS requires support for mandatory features of HT PHY (IEEE 802.11 - Clause 20)")
    ∷ (0, none)
    ∷ []

abbrev pub environment_vals : ValueString
environment_vals =
    (0x20, some "Any") ∷ (0x4f, some "Outdoor") ∷ (0x49, some "Indoor") ∷ (0, none) ∷ []

abbrev pub service_interval_granularity_vals : ValueString
unfolding numbered
service_interval_granularity_vals =
    numbered 0 ("5 ms" ∷ "10 ms" ∷ "15 ms" ∷ "20 ms" ∷ "25 ms" ∷ "30 ms" ∷ "35 ms" ∷ "40 ms" ∷ [])

abbrev pub ieee80211_rsn_cipher_vals : ValueString
unfolding numbered
ieee80211_rsn_cipher_vals = numbered 0 (
    "NONE" ∷ "WEP (40-bit)" ∷ "TKIP" ∷ "AES (OCB)" ∷ "AES (CCM)" ∷ "WEP (104-bit)" ∷ "BIP"
    ∷ "Group addressed traffic not allowed" ∷ [])

abbrev pub ieee80211_rsn_keymgmt_vals : ValueString
unfolding numbered
ieee80211_rsn_keymgmt_vals = numbered 0 (
    "NONE" ∷ "WPA" ∷ "PSK" ∷ "FT over IEEE 802.1X" ∷ "FT using PSK" ∷ "WPA (SHA256)"
    ∷ "PSK (SHA256)" ∷ "TDLS / TPK Handshake" ∷ [])

abbrev pub rsn_cap_replay_counter : ValueString
unfolding numbered
rsn_cap_replay_counter = numbered 0 (
    "1 replay counter per PTKSA/GTKSA/STAKeySA" ∷ "2 replay counters per PTKSA/GTKSA/STAKeySA"
    ∷ "4 replay counters per PTKSA/GTKSA/STAKeySA" ∷ "16 replay counters per PTKSA/GTKSA/STAKeySA"
    ∷ [])

abbrev pub ieee802111_wfa_ie_type_vals : ValueString
ieee802111_wfa_ie_type_vals =
    (1, some "WPA Information Element") ∷ (2, some "WMM/WME") ∷ (4, some "WPS") ∷ (0, none) ∷ []

abbrev pub ieee80211_wfa_ie_wpa_cipher_vals : ValueString
unfolding numbered
ieee80211_wfa_ie_wpa_cipher_vals = numbered 0 (
    "NONE" ∷ "WEP (40-bit)" ∷ "TKIP" ∷ "AES (OCB)" ∷ "AES (CCM)" ∷ "WEP (104-bit)" ∷ "BIP"
    ∷ "Group addressed traffic not allowed" ∷ [])

abbrev pub ieee80211_wfa_ie_wpa_keymgmt_vals : ValueString
unfolding numbered
ieee80211_wfa_ie_wpa_keymgmt_vals = numbered 0 (
    "NONE" ∷ "WPA" ∷ "PSK" ∷ "FT over IEEE 802.1X" ∷ "FT using PSK" ∷ "WPA (SHA256)"
    ∷ "PSK (SHA256)" ∷ "TDLS / TPK Handshake" ∷ [])

abbrev pub ieee802111_wfa_ie_wme_type : ValueString
unfolding numbered
ieee802111_wfa_ie_wme_type =
    numbered 0 ("Information Element" ∷ "Parameter Element" ∷ "TSPEC Element" ∷ [])

abbrev pub sta_max_sp_length_vals : ValueString
unfolding numbered
sta_max_sp_length_vals = numbered 0 (
    "WMM AP may deliver all buffered frames (MSDUs and MMPDUs)"
    ∷ "WMM AP may deliver a maximum of 2 buffered frames (MSDUs and MMPDUs) per USP"
    ∷ "WMM AP may deliver a maximum of 4 buffered frames (MSDUs and MMPDUs) per USP"
    ∷ "WMM AP may deliver a maximum of 6 buffered frames (MSDUs and MMPDUs) per USP" ∷ [])

abbrev pub ieee80211_wfa_ie_wme_acs_vals : ValueString
unfolding numbered
ieee80211_wfa_ie_wme_acs_vals = numbered 0 ("Best Effort" ∷ "Background" ∷ "Video" ∷ "Voice" ∷ [])

abbrev pub tsinfo_direction_vals : ValueString
unfolding numbered
tsinfo_direction_vals =
    numbered 0 ("Uplink" ∷ "Downlink" ∷ "Direct link" ∷ "Bidirectional link" ∷ [])

abbrev pub tsinfo_psb_vals : ValueString
unfolding numbered
tsinfo_psb_vals = numbered 0 ("Legacy" ∷ "U-APSD" ∷ [])

abbrev pub tsinfo_up_vals : ValueString
unfolding numbered
tsinfo_up_vals = numbered 0 (
    "Best Effort" ∷ "Background" ∷ "Spare" ∷ "Excellent Effort" ∷ "Controlled Load" ∷ "Video"
    ∷ "Voice" ∷ "Network Control" ∷ [])

abbrev pub hta_ext_chan_offset_flag : ValueString
unfolding numbered
hta_ext_chan_offset_flag = numbered 0 (
    "No Extension Channel" ∷ "Extension Channel above control channel" ∷ "Undefined"
    ∷ "Extension Channel below control channel" ∷ [])

abbrev pub hta_service_interval_flag : ValueString
unfolding numbered
hta_service_interval_flag =
    numbered 0 ("5ms" ∷ "10ms" ∷ "15ms" ∷ "20ms" ∷ "25ms" ∷ "30ms" ∷ "35ms" ∷ "40ms" ∷ [])

abbrev pub hta_operating_mode_flag : ValueString
unfolding numbered
hta_operating_mode_flag = numbered 0 (
    "Pure HT, no protection" ∷ "There may be non-HT devices (control & ext channel)"
    ∷ "No non-HT is associated, but at least 1 20MHz is. protect on"
    ∷ "Mixed: no non-HT is associated, protect on" ∷ [])
