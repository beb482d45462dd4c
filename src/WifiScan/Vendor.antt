-- ===== src/WifiScan/Vendor.antt =====
-- The elements of vendors, of ParseWifiScan.h. `b` are the bytes behind the organisation's three.
use Prim.Native.String.{String}
use wlan_cloud_ucentralgw.Base.{
  ℕ, ◌+◌, ◌-◌, ◌%◌, ◌^◌, [], ◌∷◌, Option, some, length, drop, leb, ◌==◌, if◌then◌else◌,
}
use wlan_cloud_ucentralgw.WifiScan.Bytes.{Bytes, ◌>>=◌, byte_at, get_uint24_big, buffer_to_hex}
use wlan_cloud_ucentralgw.WifiScan.Elements.{element}
use wlan_cloud_ucentralgw.WifiScan.Ht.{dissect_ht_capability_ie, dissect_ht_info_ie}
use wlan_cloud_ucentralgw.WifiScan.Json.{Json, Members, no_member, put, assign, content_of}
use wlan_cloud_ucentralgw.WifiScan.Labels.{label}
use wlan_cloud_ucentralgw.WifiScan.Wpa.{dissect_wpawme}

-- `l - 1` on a `uint`.
abbrev pub less_one : ℕ → ℕ
less_one l = (l + 2 ^ 32 - 1) % 2 ^ 32

unfoldable pub dissect_rsn : Bytes → ℕ → Option Members
unfolding byte_at buffer_to_hex
dissect_rsn b l = do
  type ← byte_at b 0
  let ie = put "vendor" (label "Wi-Fi : RSN") no_member
  if type == 4
      then (do dump ← buffer_to_hex b 1 16 b' '; some (put "RSN PMKID" dump ie))
      else (do dump ← buffer_to_hex b 1 (less_one l) b' '; some (put "RSN Unknown" dump ie))

-- `--l` stands before the type is read, and the length of what follows is `l - 1` once more.
unfoldable pub dissect_ht : Bytes → ℕ → Option Members
unfolding byte_at buffer_to_hex dissect_ht_capability_ie dissect_ht_info_ie
dissect_ht b l = do
  type ← byte_at b 0
  let ie = put "vendor" (label "Wi-Fi : 802.11 Pre-N") no_member
  let left = less_one (less_one l)
  if type == 51
      then dissect_ht_capability_ie (drop 1 b) left ie
      else if type == 52
      then dissect_ht_info_ie (drop 1 b) left ie
      else (do dump ← buffer_to_hex b 1 left b' '; some (put "802.11n (Pre) Unknown Data" dump ie))

-- The six vendors whose bytes are shown as they are.
unfoldable pub dissect_dump : String → Bytes → ℕ → Option Members
unfolding buffer_to_hex
dissect_dump vendor b l = do
  dump ← buffer_to_hex b 1 (less_one l) b' '
  some (assign (("vendor", label vendor) ∷ ("Data", dump) ∷ []) no_member)

unfoldable pub vendor_content : ℕ → Bytes → Option Members
unfolding dissect_wpawme dissect_rsn dissect_ht dissect_dump
vendor_content oui bytes =
    let b = drop 3 bytes in
    let l = length bytes - 3 in
    if oui == 0x0050F2
    then dissect_wpawme b l
    else if oui == 0x000FAC
    then dissect_rsn b l
    else if oui == 0x00904C
    then dissect_ht b l
    else if oui == 0x506F9A
    then dissect_dump "Wi-Fi Alliance" b l
    else if oui == 0x004096
    then dissect_dump "Cisco Wireless (Aironet)" b l
    else if oui == 0x005043
    then dissect_dump "Marvell Semiconductor" b l
    else if oui == 0x00037F
    then dissect_dump "Atheros Communications" b l
    else if oui == 0x000B86
    then dissect_dump "Aruba Networks" b l
    else if oui == 0x001F32
    then dissect_dump "Nintendo" b l
    else (do dump ← buffer_to_hex bytes 0 (length bytes) b' '; some (put "content" dump no_member))

unfoldable pub vendor_specific : Bytes → Option Json
unfolding element get_uint24_big vendor_content
vendor_specific bytes = do
  content ←
      if leb 3 (length bytes)
      then (do (oui, _) ← get_uint24_big bytes 0; vendor_content oui bytes)
      else some no_member
  some (element "Vendor Specific" (content_of content) 221)
