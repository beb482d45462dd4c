-- ===== src/WifiScan/Rsn.antt =====
-- The element of ParseWifiScan.h that says how a network is secured (RSN).
pub mod Even
pub mod Encoding
pub mod Pieces
pub mod RoundTrip
use Prim.Native.Nat.{bit_and}
use Prim.Native.String.{String}
use wlan_cloud_ucentralgw.Base.{
  ℕ, zero, suc, ◌+◌, ◌-◌, ◌*◌, ◌/◌, ◌^◌, List, [], ◌∷◌, Option, some, length, leb, ltb, ◌==◌,
  if◌then◌else◌,
}
use wlan_cloud_ucentralgw.WifiScan.Bytes.{
  Bytes, ◌>>=◌, byte_at, get_uint16, get_uint24_big, buffer_to_hex, field,
}
use wlan_cloud_ucentralgw.WifiScan.Elements.{element}
use wlan_cloud_ucentralgw.WifiScan.Json.{
  Json, number, array, Members, no_member, items, put, assign, assign_in, content_of,
}
use wlan_cloud_ucentralgw.WifiScan.Labels.{
  ValueString, vals, ieee80211_rsn_cipher_vals, ieee80211_rsn_keymgmt_vals, rsn_cap_replay_counter,
}

-- How a suite is shown: the keys of its two members, the organisation whose suites have names,
-- the names and the character between the bytes of another organisation.
pub record Suite : Type 0 where
  pub oui_key : String
  pub type_key : String
  pub known : ℕ
  pub names : ValueString
  pub separator : ℕ

-- The type of a suite, at `offset`, by the organisation in front of it.
unfoldable pub suite_type : Suite → ℕ → Bytes → ℕ → Option Json
unfolding byte_at buffer_to_hex
suite_type k oui bytes offset = do
  b ← byte_at bytes offset
  if oui == k.known then some (vals k.names b) else buffer_to_hex bytes offset 1 b' '

-- The four bytes of a suite.
unfoldable pub suite : Suite → Bytes → ℕ → Option (List (String × Json))
unfolding suite_type get_uint24_big
suite k bytes offset = do
  (oui, behind) ← get_uint24_big bytes offset
  name ← buffer_to_hex bytes (behind - 3) 3 k.separator
  kind ← suite_type k oui bytes behind
  some ((k.oui_key, name) ∷ (k.type_key, kind) ∷ [])

-- `while (count)`.
unfoldable pub suites : ℕ → Suite → Bytes → ℕ → Option (List Json)
unfolding suite
suites zero k bytes offset = some []
suites (suc count) k bytes offset = do
  entry ← suite k bytes offset
  rest ← suites count k bytes (offset + 4)
  some (content_of (assign entry no_member) ∷ rest)

-- A count of suites and the suites, which are left out where the bytes do not hold them.
unfoldable pub counted_suites : Suite → String → String → Bytes → ℕ → Members → Option (Members × ℕ)
unfolding get_uint16 suites
counted_suites k count_key list_key bytes offset content =
    if ltb offset (length bytes)
    then (do
      (count, behind) ← get_uint16 bytes offset
      let content' = put count_key (number count) content
      if leb (behind + count * 4) (length bytes)
          then (do
            list ← suites count k bytes behind
            some (put list_key (array (items list)) content', behind + count * 4))
          else some (content', behind))
    else some (content, offset)

unfoldable pub capability_fields : ℕ → List (String × Json)
capability_fields rsn_cap =
    ("RSN Pre-Auth capabilities", field rsn_cap 0x0001 0)
    ∷ ("RSN No Pairwise capabilities", field rsn_cap 0x0002 1)
    ∷ (
      "RSN PTKSA Replay Counter capabilities",
      vals rsn_cap_replay_counter (bit_and rsn_cap 0x000c / 2 ^ 2),
    )
    ∷ (
      "RSN GTKSA Replay Counter capabilities",
      vals rsn_cap_replay_counter (bit_and rsn_cap 0x0030 / 2 ^ 4),
    )
    ∷ ("Management Frame Protection Required", field rsn_cap 0x0040 6)
    ∷ ("Management Frame Protection Capable", field rsn_cap 0x0080 7)
    ∷ ("PeerKey Enabled", field rsn_cap 0x0200 9)
    ∷ []

unfoldable pub rsn_capabilities : Bytes → ℕ → Members → Option (Members × ℕ)
unfolding capability_fields get_uint16
rsn_capabilities bytes offset content =
    if leb (offset + 2) (length bytes)
    then (do
      (rsn_cap, behind) ← get_uint16 bytes offset
      some (assign_in "RSN Capabilities" (capability_fields rsn_cap) content, behind))
    else some (content, offset)

unfoldable pub pmkid_list : ℕ → Bytes → ℕ → Option (List Json)
unfolding buffer_to_hex
pmkid_list zero bytes offset = some []
pmkid_list (suc count) bytes offset = do
  pmkid ← buffer_to_hex bytes offset 16 b' '
  rest ← pmkid_list count bytes (offset + 16)
  some (content_of (put "PMKID" pmkid no_member) ∷ rest)

unfoldable pub pmkids : Bytes → ℕ → Members → Option (Members × ℕ)
unfolding pmkid_list get_uint16
pmkids bytes offset content =
    if leb (offset + 2) (length bytes)
    then (do
      (count, behind) ← get_uint16 bytes offset
      let content' = put "PMKID Count" (number count) content
      if leb (behind + count * 16) (length bytes)
          then (do
            list ← pmkid_list count bytes behind
            some (put "PMKID List" (array (items list)) content', behind + count * 16))
          else some (content', behind))
    else some (content, offset)

abbrev pub oui_rsn : ℕ
oui_rsn = 0x000FAC

abbrev pub group_suite : Suite
group_suite = record {
  oui_key = "Group Cipher Suite OUI";
  type_key = "Group Cipher Suite type";
  known = oui_rsn;
  names = ieee80211_rsn_cipher_vals;
  separator = b':';
}

-- The members of a pairwise suite are named like those of the group's.
abbrev pub akm_suite : Suite
akm_suite = record {
  oui_key = "Auth Key Management (AKM) OUI";
  type_key = "Auth Key Management (AKM) type";
  known = oui_rsn;
  names = ieee80211_rsn_keymgmt_vals;
  separator = b':';
}

abbrev pub management_suite : Suite
management_suite = record {
  oui_key = "Group Management Cipher Suite OUI";
  type_key = "Group Management Cipher Suite type";
  known = oui_rsn;
  names = ieee80211_rsn_cipher_vals;
  separator = b':';
}

unfoldable pub group_management : Bytes → ℕ → Members → Option Members
unfolding suite
group_management bytes offset content =
    if leb (offset + 4) (length bytes)
    then (do
      entry ← suite management_suite bytes offset
      some (assign_in "Group Management Cipher Suite" entry content))
    else some content

-- The version and the suite of the group, which stand in every element.
unfoldable pub rsn_front : Bytes → Option Members
unfolding get_uint16 suite
rsn_front bytes = do
  (version, offset) ← get_uint16 bytes 0
  entry ← suite group_suite bytes offset
  some (assign (("RSN Version", number version) ∷ entry) no_member)

-- What stands behind them, from `offset` on.
unfoldable pub rsn_tail : Bytes → ℕ → Members → Option Members
unfolding counted_suites rsn_capabilities pmkids group_management
rsn_tail bytes offset content = do
  (c1, o1) ←
      counted_suites group_suite "Pairwise Cipher Suite Count" "Pairwise Cipher Suite List" bytes
        offset content
  (c2, o2) ←
      counted_suites akm_suite "Auth Key Management (AKM) Suite Count"
        "Auth Key Management (AKM) List" bytes o1 c1
  (c3, o3) ← rsn_capabilities bytes o2 c2
  (c4, o4) ← pmkids bytes o3 c3
  group_management bytes o4 c4

unfoldable pub rsn : Bytes → Option Json
unfolding element rsn_front rsn_tail
rsn bytes = do
  content ← rsn_front bytes
  content' ← rsn_tail bytes 6 content
  some (element "RSN" (content_of content') 48)
