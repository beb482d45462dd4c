-- ===== src/WifiScan/Rates.antt =====
-- The elements of ParseWifiScan.h that are lists: rates and regulatory classes.
use wlan_cloud_ucentralgw.Base.{
  ℕ, zero, suc, ◌+◌, ◌/◌, ◌%◌, List, [], ◌∷◌, ◌++◌, map, ltb, if◌then◌else◌,
}
use wlan_cloud_ucentralgw.Base.Table.{Text}
use wlan_cloud_ucentralgw.WifiScan.Bytes.{Bytes}
use wlan_cloud_ucentralgw.WifiScan.Json.{
  Json, number, string, array, no_member, items, put, assign, content_of,
}
use wlan_cloud_ucentralgw.WifiScan.Labels.{codes, vals, ieee80211_supported_rates_vals}
use wlan_cloud_ucentralgw.WifiScan.Elements.{element}

unfoldable pub supp_rates : Bytes → Json
unfolding element
supp_rates bytes =
    element "Supported Rates (Mbps)"
      (array (items (map (vals ieee80211_supported_rates_vals) bytes))) 1

-- `std::to_string` of a number of fewer than `fuel` digits.
unfoldable pub to_string : ℕ → ℕ → Text
to_string zero n = []
to_string (suc fuel) n =
    let front = to_string fuel (n / 10) in
    let digit = b'0' + n % 10 in if ltb n 10 then digit ∷ [] else front ++ (digit ∷ [])

-- The texts, with a comma and a blank between.
unfoldable pub separated : List Text → Text → Text
separated [] result = result
separated (t ∷ ts) [] = separated ts t
separated (t ∷ ts) (r ∷ result) = separated ts ((r ∷ result) ++ (b',' ∷ b' ' ∷ t))

unfoldable pub regulatory_content : Bytes → Json
unfolding to_string separated
regulatory_content (b0 ∷ b1 ∷ rest) = content_of (
    assign
      (("Current Regulatory Class", number b0)
        ∷ ("Alternate Regulatory Classes", string (separated (map (to_string 10) (b1 ∷ rest)) []))
        ∷ [])
      no_member)
regulatory_content _ = content_of no_member

unfoldable pub supported_regulatory_classes : Bytes → Json
unfolding element regulatory_content
supported_regulatory_classes bytes =
    element "Supported Regulatory Classes" (regulatory_content bytes) 59

abbrev label_text : Json → Text
label_text (string t) = t
label_text _ = []

unfoldable pub ext_supp_rates : Bytes → Json
unfolding element separated codes
ext_supp_rates bytes =
    element "Supported Rates"
      (content_of (
        put "Supported Rates"
          (string (
            separated (map (λ rate. label_text (vals ieee80211_supported_rates_vals rate)) bytes) []
            ++ codes " [Mbit/sec]"))
          no_member))
      50
