-- ===== src/WifiScan/Elements.antt =====
-- The information elements of ParseWifiScan.h that need no part of their own. Each function takes
-- the bytes behind the length of an element.
use Prim.Native.Nat.{bit_and}
use Prim.Native.String.{String}
use wlan_cloud_ucentralgw.Base.{
  ℕ, ◌+◌, ◌-◌, ◌*◌, List, [], ◌∷◌, Option, some, none, length, leb, ltb, ◌==◌, if◌then◌else◌,
}
use wlan_cloud_ucentralgw.WifiScan.Bytes.{Bytes, ◌>>=◌, byte_at, bit_set8, field, buffer_to_hex}
use wlan_cloud_ucentralgw.WifiScan.Json.{
  Json, boolean, number, string, array, object, no_member, items, put, assign, assign_in,
  content_of,
}
use wlan_cloud_ucentralgw.WifiScan.Labels.{label, vals, environment_vals}

-- `new_ie`.
unfoldable pub element : String → Json → ℕ → Json
unfolding assign
element name content type =
    object
      (assign (("name", label name) ∷ ("content", content) ∷ ("type", number type) ∷ []) no_member)

unfoldable pub fh_params : Bytes → Option Json
unfolding element
fh_params bytes = do
  b0 ← byte_at bytes 0
  b1 ← byte_at bytes 1
  b2 ← byte_at bytes 2
  b3 ← byte_at bytes 3
  b4 ← byte_at bytes 4
  some (
      element "FH Params"
        (content_of (
          assign
            (("Dwell Time", number (b0 * 256 + b1))
              ∷ ("Hop Set", number b2)
              ∷ ("Hop Pattern", number b3)
              ∷ ("Hop Index", number b4)
              ∷ [])
            no_member))
        2)

unfoldable pub ds_params : Bytes → Option Json
unfolding element
ds_params bytes = do
  b0 ← byte_at bytes 0
  some (element "DS Params" (content_of (put "current_channel" (number b0) no_member)) 3)

-- The bitmap behind the three bytes in front, where there is one.
unfoldable pub partial_bitmap : Bytes → Option (List (String × Json))
partial_bitmap bytes =
    if ltb 3 (length bytes)
    then (do
      bitmap ← buffer_to_hex bytes 3 (length bytes - 3) b' '
      some (("Partial Virtual Bitmap", bitmap) ∷ []))
    else some []

unfoldable pub tim_content : Bytes → Option Json
unfolding partial_bitmap
tim_content bytes = do
  b0 ← byte_at bytes 0
  b1 ← byte_at bytes 1
  b2 ← byte_at bytes 2
  bitmap ← partial_bitmap bytes
  some (
      content_of (
        assign_in "Bitmap control"
          (("Multicast", number (bit_and b2 0x01)) ∷ ("Bitmap Offset", field b2 0xfe 1) ∷ bitmap)
          (assign (("DTIM count", number b0) ∷ ("DTIM period", number b1) ∷ []) no_member)))

unfoldable pub tim : Bytes → Option Json
unfolding element tim_content
tim bytes = do
  content ← if leb 4 (length bytes) then tim_content bytes else some (content_of no_member)
  some (element "Traffic Indication Map (TIM)" content 5)

-- One round of the loop: three bytes.
unfoldable pub country_constraint : ℕ → ℕ → ℕ → Json
country_constraint a b c = content_of (
    assign_in "Country Info"
      (if leb a 200
        then ("First Channel Number", number a)
          ∷ ("Number of Channels", number b)
          ∷ ("Maximum Transmit Power Level (in dBm)", number c)
          ∷ []
        else ("Regulatory Extension Identifier", number a)
          ∷ ("Regulatory Class", number b)
          ∷ ("Coverage Class", number c)
          ∷ [])
      no_member)

-- `for (i = 3; i + 3 <= data.size(); i += 3)`, on the bytes from `i` on.
unfoldable pub country_constraints : Bytes → List Json
unfolding country_constraint
country_constraints [] = []
country_constraints (a ∷ []) = []
country_constraints (a ∷ b ∷ []) = []
country_constraints (a ∷ b ∷ c ∷ rest) = country_constraint a b c ∷ country_constraints rest

unfoldable pub country : Bytes → Option Json
unfolding element country_constraints
country [] = none
country (b0 ∷ []) = none
country (b0 ∷ b1 ∷ []) = none
country (b0 ∷ b1 ∷ b2 ∷ rest) = some (
    element "country"
      (content_of (
        assign
          (("Code", string (b0 ∷ b1 ∷ []))
            ∷ ("Environment", vals environment_vals b2)
            ∷ ("constraints", array (items (country_constraints rest)))
            ∷ [])
          no_member))
      7)

-- Both versions read one byte more than the size that they ask for.
unfoldable pub qbss_content : Bytes → Option Json
qbss_content bytes =
    if length bytes == 4
    then (do
      b1 ← byte_at bytes 1
      b2 ← byte_at bytes 2
      b3 ← byte_at bytes 3
      b4 ← byte_at bytes 4
      some (
          content_of (
            assign_in "Cisco QBSS Version 1 - non CCA"
              (("QBSS Version", number 1)
                ∷ ("Station Count", number (b2 + b1 * 256))
                ∷ ("Channel Utilization", number b3)
                ∷ ("Available Admission Capabilities", number b4)
                ∷ [])
              no_member)))
    else if length bytes == 5
    then (do
      b1 ← byte_at bytes 1
      b2 ← byte_at bytes 2
      b3 ← byte_at bytes 3
      b4 ← byte_at bytes 4
      b5 ← byte_at bytes 5
      some (
          content_of (
            assign_in "802.11e CCA Version"
              (("QBSS Version", number 2)
                ∷ ("Station Count", number (b2 + b1 * 256))
                ∷ ("Channel Utilization", number b3)
                ∷ ("Available Admission Capabilities", number (b4 + b5 * 256))
                ∷ [])
              no_member)))
    else some (content_of no_member)

unfoldable pub qbss_load : Bytes → Option Json
unfolding element qbss_content
qbss_load bytes = do content ← qbss_content bytes; some (element "QBSS Load" content 11)

unfoldable pub pwr_constraint : Bytes → Option Json
unfolding element
pwr_constraint bytes = do
  b0 ← byte_at bytes 0
  some (
      element "Local Power Constraint"
        (content_of (put "Local Power Constraint" (number b0) no_member)) 32)

unfoldable pub erp_info : Bytes → Option Json
unfolding element
erp_info bytes = do
  b0 ← byte_at bytes 0
  some (
      element "ERP Information"
        (content_of (
          assign
            (("Non ERP Present", boolean (bit_set8 b0 0))
              ∷ ("Use Protection", boolean (bit_set8 b0 1))
              ∷ ("Barker Preamble Mode", boolean (bit_set8 b0 2))
              ∷ [])
            no_member))
        42)

unfoldable pub tpc_content : Bytes → Option Json
tpc_content bytes = do
  b0 ← byte_at bytes 0
  b1 ← byte_at bytes 1
  some (
      content_of
        (assign (("Transmit Power", number b0) ∷ ("Link Margin", number b1) ∷ []) no_member))

unfoldable pub tpc_report : Bytes → Option Json
unfolding element tpc_content
tpc_report bytes = do
  content ← if length bytes == 2 then tpc_content bytes else some (content_of no_member)
  some (element "TPC Report" content 35)

-- The first byte says which extension it is; all are shown the same way.
unfoldable pub extension : Bytes → Option Json
unfolding element
extension bytes = do
  sub_ie ← byte_at bytes 0
  eid ← buffer_to_hex bytes 0 1 b' '
  block ← buffer_to_hex bytes 1 (length bytes - 1) b' '
  some (
      element "EI Extensions"
        (content_of (assign (("Extension EID", eid) ∷ ("Block", block) ∷ []) no_member)) 255)
