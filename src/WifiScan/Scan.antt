-- ===== src/WifiScan/Scan.antt =====
-- `ParseWifiScan`: the answer to a scan is walked, and each information element of which there is
-- a decoder is replaced by what it says.
pub mod Kept
pub mod Fits
pub mod Parsed
use Prim.Native.String.{String}
use wlan_cloud_ucentralgw.Base.{
  ℕ, ◌-◌, ◌%◌, ◌^◌, Bool, true, false, ◌&&◌, List, Option, none, some, ◌==◌, if◌then◌else◌,
}
use wlan_cloud_ucentralgw.Base.Table.{Text}
use wlan_cloud_ucentralgw.WifiScan.Bytes.{Bytes, ◌>>=◌}
use wlan_cloud_ucentralgw.WifiScan.Elements.{
  fh_params, ds_params, tim, country, qbss_load, pwr_constraint, erp_info, tpc_report, extension,
}
use wlan_cloud_ucentralgw.WifiScan.Envelope.{tx_power_envelope}
use wlan_cloud_ucentralgw.WifiScan.Rates.{supp_rates, supported_regulatory_classes, ext_supp_rates}
use wlan_cloud_ucentralgw.WifiScan.Ht.{ht_capability}
use wlan_cloud_ucentralgw.WifiScan.Json.{
  Json, null, boolean, number, negative, fraction, string, array, object, Items, no_item, item,
  Members, no_member, member, get, has, put,
}
use wlan_cloud_ucentralgw.WifiScan.Rsn.{rsn}
use wlan_cloud_ucentralgw.WifiScan.Vendor.{vendor_specific}
use wlan_cloud_ucentralgw.WifiScan.Vht.{vht_capability, rrm_enabled_capabilities, ext_capability}

-- The chain of tests on the type of an element `ie`; what no test knows stays as it is.
unfoldable pub decode : Json → ℕ → Bytes → Option Json
decode ie type bytes =
    if type == 7
    then country bytes
    else if type == 1
    then some (supp_rates bytes)
    else if type == 2
    then fh_params bytes
    else if type == 3
    then ds_params bytes
    else if type == 5
    then tim bytes
    else if type == 11
    then qbss_load bytes
    else if type == 32
    then pwr_constraint bytes
    else if type == 42
    then erp_info bytes
    else if type == 59
    then some (supported_regulatory_classes bytes)
    else if type == 45
    then ht_capability bytes
    else if type == 50
    then some (ext_supp_rates bytes)
    else if type == 195
    then tx_power_envelope bytes
    else if type == 191
    then vht_capability bytes
    else if type == 70
    then rrm_enabled_capabilities bytes
    else if type == 127
    then some (ext_capability bytes)
    else if type == 35
    then tpc_report bytes
    else if type == 48
    then rsn bytes
    else if type == 221
    then vendor_specific bytes
    else if type == 255
    then extension bytes
    else some ie

-- The conversions to `uint64_t` and to `std::string`; none where they throw. A negative number
-- wraps; `truncate` is the conversion of a number with a fraction, which reads its text.
abbrev pub to_number : (Text → ℕ) → Json → Option ℕ
to_number truncate (number n) = some n
to_number truncate (negative n) = some ((2 ^ 64 - 1 - n) % 2 ^ 64)
to_number truncate (fraction text) = some (truncate text)
to_number truncate (boolean true) = some 1
to_number truncate (boolean false) = some 0
to_number truncate _ = none

abbrev pub to_text : Json → Option Text
to_text (string t) = some t
to_text _ = none

-- `contains` and `operator[]` on what may not be an object.
abbrev pub contains : String → Json → Bool
contains k (object ms) = has k ms
contains k _ = false

abbrev pub at : String → Json → Json
at k (object ms) = get k ms
at k _ = null

-- `base64` is the decoder of Poco.
module _ (base64 : Text → Bytes) (truncate : Text → ℕ) where
  -- What throws is caught, and the element stays as it is.
  unfoldable pub decode_texts : Json → Option ℕ → Option Text → Option Json
  unfolding decode
  decode_texts ie (some type) (some text) = decode ie type (base64 text)
  decode_texts ie (some type) none = some ie
  decode_texts ie none _ = some ie

  unfoldable pub parse_ie : Json → Option Json
  unfolding decode_texts
  parse_ie ie =
      if contains "type" ie && contains "data" ie
      then decode_texts ie (to_number truncate (at "type" ie)) (to_text (at "data" ie))
      else some ie

  unfoldable pub parse_ies : Items → Option Items
  unfolding parse_ie
  parse_ies no_item = some no_item
  parse_ies (item ie rest) = do
    new_ie ← parse_ie ie
    new_ies ← parse_ies rest
    some (item new_ie new_ies)

  -- `scan_entry["ies"]` is replaced where it is an array.
  unfoldable pub with_ies : Members → Json → Option Members
  unfolding parse_ies
  with_ies entry (array ies) = do new_ies ← parse_ies ies; some (put "ies" (array new_ies) entry)
  with_ies entry _ = some entry

  unfoldable pub parse_entry : Json → Option Json
  unfolding with_ies
  parse_entry (object entry) = do entry' ← with_ies entry (get "ies" entry); some (object entry')
  parse_entry scan_entry = some scan_entry

  unfoldable pub parse_entries : Items → Option Items
  unfolding parse_entry
  parse_entries no_item = some no_item
  parse_entries (item entry rest) = do
    parsed ← parse_entry entry
    parsed_rest ← parse_entries rest
    some (item parsed parsed_rest)

  unfoldable pub with_scan : Members → Json → Option Members
  unfolding parse_entries
  with_scan status (array scan) = do
    parsed_scan ← parse_entries scan
    some (put "scan" (array parsed_scan) status)
  with_scan status _ = some status

  unfoldable pub with_status : Members → Json → Option Members
  unfolding with_scan
  with_status answer (object status) = do
    status' ← with_scan status (get "scan" status)
    some (put "status" (object status') answer)
  with_status answer _ = some answer

  unfoldable pub parse_answer : Json → Option Json
  unfolding with_status
  parse_answer (object answer) = do
    answer' ← with_status answer (get "status" answer)
    some (object answer')
  parse_answer other = some other

  -- The text of the answer, or none where it is not returned: `to_string` throws on a text that is
  -- not UTF-8, and that is all that can throw.
  module _ (to_string : Json → Option Text) where
    unfoldable pub parse_wifi_scan : Json → Option (Option Text)
    unfolding parse_answer
    parse_wifi_scan answer = do parsed ← parse_answer answer; some (to_string parsed)
