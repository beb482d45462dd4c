-- ===== src/WifiScan/Wpa/RoundTrip.antt =====
-- What the decoder shows of an element of WPA that is written as it should be.
use wlan_cloud_ucentralgw.Base.{
  ℕ, ◌+◌, ◌-◌, ◌*◌, ◌%◌, ◌^◌, ◌<◌, ◌≡◌, refl, true, List, [], ◌∷◌, ◌++◌, map, some, length, leb,
  ltb, arith, ◌==◌, if◌then◌else◌,
}
use wlan_cloud_ucentralgw.WifiScan.At.{At, At-start, At-step, get_uint16-At, get_uint24_big-At}
use wlan_cloud_ucentralgw.WifiScan.Bytes.{Bytes, byte_at, hex_loop}
use wlan_cloud_ucentralgw.WifiScan.Json.{
  Json, number, string, array, object, Members, no_member, member, items, put, assign, content_of,
}
use wlan_cloud_ucentralgw.WifiScan.Labels.{
  label, vals, ieee80211_wfa_ie_wpa_cipher_vals, ieee80211_wfa_ie_wpa_keymgmt_vals,
}
use wlan_cloud_ucentralgw.WifiScan.Rsn.Encoding.{Cipher, word, cipher_bytes, joined}
use wlan_cloud_ucentralgw.WifiScan.Rsn.Pieces.{
  behind_suites, entry_json, suite_type-At, suites-At, word_eq,
}
use wlan_cloud_ucentralgw.WifiScan.Rsn.{Suite}
use wlan_cloud_ucentralgw.WifiScan.Scan.{decode}
use wlan_cloud_ucentralgw.WifiScan.Vendor.{vendor_content, vendor_specific}
use wlan_cloud_ucentralgw.WifiScan.Wpa.{
  unicast_suite, wpa_akm_suite, listed_suites, wpa, dissect_wpawme,
}

pub record Wpa : Type 0 where
  pub version : ℕ
  pub group : Cipher
  pub unicast : List Cipher
  pub key_management : List Cipher

-- What stands behind the organisation and the type.
abbrev pub body : Wpa → Bytes
body w =
    word w.version
    ++ (cipher_bytes w.group
        ++ (word (length w.unicast)
            ++ (joined (map cipher_bytes w.unicast)
                ++ (word (length w.key_management)
                    ++ (joined (map cipher_bytes w.key_management) ++ [])))))

unfoldable pub encode : Wpa → Bytes
encode w = 0x00 ∷ 0x50 ∷ 0xF2 ∷ 1 ∷ body w

-- The numbers have two bytes.
pub record IsSound (w : Wpa) : Type 0 where
  pub version_small : w.version < 2 ^ 16
  pub unicast_few : length w.unicast < 2 ^ 16
  pub key_management_few : length w.key_management < 2 ^ 16

abbrev organisation : Cipher → Json
organisation c = string (hex_loop b' ' (c.first ∷ c.second ∷ c.third ∷ []) [])

abbrev is_wpa : Cipher → ℕ
is_wpa c = (c.third + c.second * 256 + c.first * 65536) % 2 ^ 32

abbrev key_management_json : Cipher → Json
key_management_json c = object (
    member "Auth Key Management (AKM) OUI" (organisation c) (
      member "Auth Key Management (AKM) type"
        (if is_wpa c == 0x0050F2
          then vals ieee80211_wfa_ie_wpa_keymgmt_vals c.kind
          else string (hex_loop b' ' (c.kind ∷ []) []))
        no_member))

-- The list of ciphers is not shown: the other list stands under its name.
unfoldable pub shown : Wpa → Json
shown w = object (
    member "name" (label "Vendor Specific") (
      member "content"
        (object (
          member "vendor" (label "Wi-Fi : WPA / WME") (
            member "type" (label "WPA Information Element") (
              member "WPA Version" (number w.version) (
                member "Multicast Cipher Suite type"
                  (if is_wpa w.group == 0x0050F2
                    then vals ieee80211_wfa_ie_wpa_cipher_vals w.group.kind
                    else string (hex_loop b' ' (w.group.kind ∷ []) []))
                  (member "Unicast Cipher Suite Count" (number (length w.unicast)) (
                    member "Unicast Cipher Suite List"
                      (array (items (map key_management_json w.key_management)))
                      (member "Auth Key Management (AKM) Suite Count"
                        (number (length w.key_management)) no_member))))))))
        (member "type" (number 221) no_member)))

listed_suites-At :
    (k : Suite) (cs : List Cipher) {d : Bytes} {offset : ℕ} (back : Bytes)
    → length cs < 2 ^ 16
    → At d offset (word (length cs) ++ (joined (map cipher_bytes cs) ++ back))
    → listed_suites k d offset ≡ some (length cs, map (entry_json k) cs, offset + 2 + length cs * 4)
unfolding listed_suites
listed_suites-At k cs back few at =
    rw (
      get_uint16-At at,
      word_eq (length cs) few,
      suites-At k cs back (At-step (word (length cs)) at),
    )

-- All members, as they are assigned.
abbrev wpa_json : Wpa → Members → Members
wpa_json w ie =
    assign
      (("WPA Version", number w.version)
        ∷ (
          "Multicast Cipher Suite type",
          if is_wpa w.group == 0x0050F2
              then vals ieee80211_wfa_ie_wpa_cipher_vals w.group.kind
              else string (hex_loop b' ' (w.group.kind ∷ []) []),
        )
        ∷ ("Unicast Cipher Suite Count", number (length w.unicast))
        ∷ ("Unicast Cipher Suite List", array (items (map (entry_json unicast_suite) w.unicast)))
        ∷ ("Auth Key Management (AKM) Suite Count", number (length w.key_management))
        ∷ (
          "Unicast Cipher Suite List",
          array (items (map (entry_json wpa_akm_suite) w.key_management)),
        )
        ∷ [])
      ie

wpa-At :
    (w : Wpa) {d : Bytes} (ie : Members)
    → IsSound w
    → At d 1 (body w)
    → wpa d ie ≡ some (wpa_json w ie)
unfolding wpa
wpa-At w ie sound at =
    let g = w.group in
    let at3 = At-step (word w.version) at in
    let at6 = At-step (g.first ∷ g.second ∷ g.third ∷ []) at3 in
    let at7 = At-step (g.kind ∷ []) at6 in
    rw (
      get_uint16-At at,
      word_eq w.version sound.version_small,
      get_uint24_big-At at3,
      suite_type-At unicast_suite (is_wpa g) g.kind _ at6,
      listed_suites-At unicast_suite w.unicast _ sound.unicast_few at7,
      listed_suites-At wpa_akm_suite w.key_management [] sound.key_management_few
          (behind_suites w.unicast at7),
    )

-- Let an element of WPA be written as it should be, with a version of two bytes and any lists
-- that two bytes can count. It is shown with its version, the type of the suite of its group and
-- both counts; but the list that stands under the name of the unicast ciphers is that of the key
-- managements, and the unicast ciphers are not shown.
pub wpa-encode : (ie : Json) (w : Wpa) → IsSound w → decode ie 221 (encode w) ≡ some (shown w)
unfolding decode vendor_specific vendor_content dissect_wpawme byte_at encode shown content_of put
    assign label vals
wpa-encode ie w sound =
    let long : leb 3 (length (encode w)) ≡ true = ground arith in
    let more : ltb 1 (length (encode w) - 3) ≡ true = ground arith in
    rw (long, more, wpa-At w _ sound (At-step (1 ∷ []) (At-start (1 ∷ body w)))) refl
