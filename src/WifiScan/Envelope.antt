-- ===== src/WifiScan/Envelope.antt =====
-- The element of ParseWifiScan.h that says how much power is allowed on each width.
pub mod Fits
use Prim.Native.Nat.{bit_and}
use Prim.Native.String.{String}
use wlan_cloud_ucentralgw.Base.{
  ℕ, zero, suc, ◌+◌, ◌-◌, ◌*◌, ◌/◌, ◌%◌, ◌&&◌, List, [], ◌∷◌, ◌++◌, map, Option, some, none, length,
  leb, ltb, ◌==◌, if◌then◌else◌,
}
use wlan_cloud_ucentralgw.Base.Table.{Text}
use wlan_cloud_ucentralgw.WifiScan.Bytes.{Bytes, ◌>>=◌, byte_at, bit_set8, field, buffer_to_hex}
use wlan_cloud_ucentralgw.WifiScan.Json.{
  Json, boolean, number, string, array, object, Members, no_member, items, put, assign, assign_in,
  content_of,
}
use wlan_cloud_ucentralgw.WifiScan.Labels.{
  codes, label, vals, environment_vals, ieee80211_supported_rates_vals,
}
use wlan_cloud_ucentralgw.WifiScan.Elements.{element}

-- The loop `for (i = 0; i <= len; i++)` from `i` on, in `rounds` rounds; only the first four
-- read a byte.
unfoldable pub envelope_key : ℕ → String
envelope_key zero = "Local Max Tx Pwr Constraint 20MHz"
envelope_key (suc zero) = "Local Max Tx Pwr Constraint 40MHz"
envelope_key (suc (suc zero)) = "Local Max Tx Pwr Constraint 80MHz"
envelope_key (suc (suc (suc i))) = "Local Max Tx Pwr Constraint 160MHz/80+80 MHz"

unfoldable pub envelope_value : Bytes → ℕ → Option ℕ
envelope_value bytes i = if ltb i 4 then byte_at bytes (i + 1) else some 0xff

unfoldable pub envelope_loop : ℕ → Bytes → ℕ → Members → Option Members
unfolding envelope_key envelope_value
envelope_loop zero bytes i content = some content
envelope_loop (suc rounds) bytes i content = do
  v ← envelope_value bytes i
  envelope_loop rounds bytes (suc i)
      (assign_in "Tx Pwr Info" ((envelope_key i, number v) ∷ []) content)

unfoldable pub envelope_content : Bytes → Option Members
unfolding envelope_loop
envelope_content bytes =
    if leb 2 (length bytes) && leb (length bytes) 5
    then (do len ← byte_at bytes 0; envelope_loop (suc len) bytes 0 no_member)
    else some no_member

unfoldable pub tx_power_envelope : Bytes → Option Json
unfolding element envelope_content
tx_power_envelope bytes = do
  content ← envelope_content bytes
  some (element "Tx Pwr Info" (content_of content) 195)
