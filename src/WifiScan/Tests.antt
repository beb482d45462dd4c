-- ===== src/WifiScan/Tests.antt =====
-- Elements that are decoded, and the theorems at them.
use wlan_cloud_ucentralgw.Base.{
  ℕ, ◌/◌, ◌%◌, ◌^◌, ◌≡◌, refl, true, false, ◌&&◌, [], ◌∷◌, Option, none, some, ltb, ◌==◌, arith,
}
use wlan_cloud_ucentralgw.Base.Table.{Text}
use wlan_cloud_ucentralgw.WifiScan.Bits.{bit_set16-bit}
use wlan_cloud_ucentralgw.WifiScan.Bounds.{fits, decode-is_some}
use wlan_cloud_ucentralgw.WifiScan.Bytes.{Bytes, byte_at, bit_set8, bit_set16, bit_string}
use wlan_cloud_ucentralgw.WifiScan.Elements.{erp_info, ds_params, element, qbss_load}
use wlan_cloud_ucentralgw.WifiScan.Rates.{to_string}
use wlan_cloud_ucentralgw.WifiScan.Json.{
  Json, null, boolean, number, array, object, no_item, item, no_member, member, get, has, put,
  assign, content_of,
}
use wlan_cloud_ucentralgw.WifiScan.Labels.{label}
use wlan_cloud_ucentralgw.WifiScan.Reads.{is_some}
use wlan_cloud_ucentralgw.WifiScan.Rsn.{rsn}
use wlan_cloud_ucentralgw.WifiScan.Rsn.Encoding.{Cipher, Security, IsSound, encode, shown}
use wlan_cloud_ucentralgw.WifiScan.Rsn.Even.{rsn-is_some}
use wlan_cloud_ucentralgw.WifiScan.Rsn.RoundTrip.{rsn-encode}
use wlan_cloud_ucentralgw.WifiScan.Scan.{decode, parse_answer, parse_wifi_scan}
use wlan_cloud_ucentralgw.WifiScan.Scan.Kept.{blank}
use wlan_cloud_ucentralgw.WifiScan.Scan.Fits.{fits_element}
use wlan_cloud_ucentralgw.WifiScan.Scan.Parsed.{fits_answer, parse_wifi_scan_lem}
use wlan_cloud_ucentralgw.WifiScan.Wpa.Overrun.{wpa-overruns}
use wlan_cloud_ucentralgw.WifiScan.Wpa.RoundTrip.{Wpa, wpa-encode}
use wlan_cloud_ucentralgw.WifiScan.Wpa.RoundTrip

-- The masks of a byte: the last one also looks at bit 4.
seventh_bit : bit_set8 0x10 7 ≡ true
unfolding bit_set8
seventh_bit = refl

-- One byte of protection, and the load of a network of four bytes, of which a fifth is read.
protection :
    erp_info (0x05 ∷ [])
    ≡ some (
        element "ERP Information"
          (object (
            member "Non ERP Present" (boolean true) (
              member "Use Protection"
                (boolean false)
                (member "Barker Preamble Mode" (boolean true) no_member))))
          42)
unfolding erp_info content_of assign put bit_set8 byte_at
protection = refl

load : qbss_load (0 ∷ 0 ∷ 3 ∷ 9 ∷ []) ≡ none
unfolding qbss_load byte_at
load = refl

decimal : to_string 10 205 ≡ b'2' ∷ b'0' ∷ b'5' ∷ []
unfolding to_string
decimal = refl

bits : bit_string 0xA5 ≡ label "10100101"
unfolding bit_string label
bits = refl

-- A network with one cipher, one key management and no key identifiers.
abbrev aes : Cipher
aes = record { first = 0; second = 0x0F; third = 0xAC; kind = 4 }

abbrev other : Cipher
other = record { first = 0; second = 0x40; third = 0x96; kind = 9 }

abbrev network : Security
network = record {
  version = 1;
  group = aes;
  pairwise = aes ∷ other ∷ [];
  key_management = aes ∷ [];
  capabilities = 0x008C;
  pmkids = [];
  management = aes;
}

network-IsSound : IsSound network
network-IsSound = record {
  version_small = omega arith;
  capabilities_small = omega arith;
  pairwise_few = omega arith;
  key_management_few = omega arith;
  pmkids_few = omega arith;
  pmkids_whole = tt;
}

rsn-encode_example : rsn (encode network) ≡ some (shown network)
rsn-encode_example = rsn-encode network network-IsSound

abbrev short_network : Bytes
short_network = 1 ∷ 0 ∷ 0 ∷ 0x0F ∷ 0xAC ∷ 4 ∷ 255 ∷ 255 ∷ []

rsn-is_some_example : is_some (rsn short_network) ≡ true
rsn-is_some_example = rsn-is_some short_network (omega arith) refl

decode-is_some_example :
    is_some (decode null 11 (0 ∷ 0 ∷ 3 ∷ 9 ∷ [])) ≡ fits 11 (0 ∷ 0 ∷ 3 ∷ 9 ∷ [])
decode-is_some_example =
    decode-is_some null 11 (0 ∷ 0 ∷ 3 ∷ 9 ∷ []) (λ e. ground (arith, e)) (λ e. ground (arith, e))

wpa-overruns_example :
    decode null 221 (0x00 ∷ 0x50 ∷ 0xF2 ∷ 1 ∷ 1 ∷ 0 ∷ 0 ∷ 0x50 ∷ 0xF2 ∷ 2 ∷ 255 ∷ 0 ∷ 0 ∷ []) ≡ none
wpa-overruns_example = wpa-overruns null 1 0 0 0x50 0xF2 2 255 0 (0 ∷ []) (omega arith)

abbrev tkip : Cipher
tkip = record { first = 0; second = 0x50; third = 0xF2; kind = 2 }

abbrev old_network : Wpa
old_network = record { version = 1; group = tkip; unicast = tkip ∷ []; key_management = tkip ∷ [] }

old_network-IsSound : RoundTrip.IsSound old_network
old_network-IsSound = record {
  version_small = omega arith;
  unicast_few = omega arith;
  key_management_few = omega arith;
}

wpa-encode_example :
    decode null 221 (RoundTrip.encode old_network) ≡ some (RoundTrip.shown old_network)
wpa-encode_example = wpa-encode null old_network old_network-IsSound

bit_set16-bit_example : bit_set16 0x0800 11 ≡ ltb 11 16 && (0x0800 / 2 ^ 11 % 2 == 1)
bit_set16-bit_example = bit_set16-bit 0x0800 11

abbrev sixteen : Bytes
sixteen = 255 ∷ 255 ∷ 0 ∷ 0 ∷ 0 ∷ 0 ∷ 0 ∷ 0 ∷ 0 ∷ 0 ∷ 0 ∷ 0 ∷ 0 ∷ 0 ∷ 0 ∷ 0 ∷ []

-- An answer with one network, whose channel is told in base 64, and an element without bytes.
abbrev base64 : Text → Bytes
base64 text = 6 ∷ []

abbrev truncate : Text → ℕ
truncate text = 3

abbrev channel : Json
channel = object (member "type" (number 3) (member "data" (label "Bg==") no_member))

abbrev answer : Json → Json
answer first = object (
    member "status"
      (object (
        member "scan"
          (array (
            item
              (object (
                member "ssid" (label "lab")
                  (member "ies" (array (item first (item null no_item))) no_member)))
              no_item))
          no_member))
      no_member)

abbrev channel_shown : Json
channel_shown = object (
    member "name" (label "DS Params") (
      member "content" (object (member "current_channel" (number 6) no_member))
        (member "type" (number 3) no_member)))

channel_parsed : parse_answer base64 truncate (answer channel) ≡ some (answer channel_shown)
unfolding parse_answer get put content_of assign has label ds_params byte_at
channel_parsed = refl

channel_fits : fits_answer base64 truncate (answer channel) ≡ true
unfolding fits_answer fits_element fits get has label
channel_fits = refl

-- As if every text were UTF-8; what the text is does not matter.
abbrev as_text : Json → Option Text
as_text j = some []

parse_wifi_scan_lem_example :
    (parsed : Json) × (parse_wifi_scan base64 truncate as_text (answer channel) ≡ some (some []))
    × (parse_answer base64 truncate (answer channel) ≡ some parsed)
    × (blank parsed ≡ blank (answer channel))
parse_wifi_scan_lem_example =
    parse_wifi_scan_lem base64 truncate as_text (answer channel) channel_fits
