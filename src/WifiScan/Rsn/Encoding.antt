-- ===== src/WifiScan/Rsn/Encoding.antt =====
-- The element of RSN as the standard writes it, and what is to be shown of it.
use Prim.Native.Nat.{bit_and}
use wlan_cloud_ucentralgw.Base.{
  ℕ, ◌+◌, ◌*◌, ◌/◌, ◌%◌, ◌^◌, ◌<◌, ◌≡◌, List, [], ◌∷◌, ◌++◌, map, All, length, ◌==◌, if◌then◌else◌,
}
use wlan_cloud_ucentralgw.WifiScan.Bytes.{Bytes, hex_loop}
use wlan_cloud_ucentralgw.WifiScan.Json.{
  Json, number, string, array, object, member, no_member, items,
}
use wlan_cloud_ucentralgw.WifiScan.Labels.{
  label, vals, ieee80211_rsn_cipher_vals, ieee80211_rsn_keymgmt_vals, rsn_cap_replay_counter,
  ValueString,
}

-- The three bytes of an organisation, and the type of its suite.
pub record Cipher : Type 0 where
  pub first : ℕ
  pub second : ℕ
  pub third : ℕ
  pub kind : ℕ

pub record Security : Type 0 where
  pub version : ℕ
  pub group : Cipher
  pub pairwise : List Cipher
  pub key_management : List Cipher
  pub capabilities : ℕ
  pub pmkids : List Bytes
  pub management : Cipher

abbrev pub word : ℕ → Bytes
word n = n % 256 ∷ n / 256 ∷ []

abbrev pub cipher_bytes : Cipher → Bytes
cipher_bytes c = c.first ∷ c.second ∷ c.third ∷ c.kind ∷ []

unfoldable pub joined : List Bytes → Bytes
joined [] = []
joined (d ∷ ds) = d ++ joined ds

unfoldable pub encode : Security → Bytes
unfolding joined
encode s =
    word s.version
    ++ (cipher_bytes s.group
        ++ (word (length s.pairwise)
            ++ (joined (map cipher_bytes s.pairwise)
                ++ (word (length s.key_management)
                    ++ (joined (map cipher_bytes s.key_management)
                        ++ (word s.capabilities
                            ++ (word (length s.pmkids)
                                ++ (joined s.pmkids ++ (cipher_bytes s.management ++ [])))))))))

-- The numbers and the counts have two bytes, and a PMKID has sixteen.
pub record IsSound (s : Security) : Type 0 where
  pub version_small : s.version < 2 ^ 16
  pub capabilities_small : s.capabilities < 2 ^ 16
  pub pairwise_few : length s.pairwise < 2 ^ 16
  pub key_management_few : length s.key_management < 2 ^ 16
  pub pmkids_few : length s.pmkids < 2 ^ 16
  pub pmkids_whole : All (λ id. length id ≡ 16) s.pmkids

abbrev pub organisation : Cipher → Json
organisation c = string (hex_loop b':' (c.first ∷ c.second ∷ c.third ∷ []) [])

-- The suites of 00-0F-AC have names; of the others the byte is shown.
abbrev pub kind_name : ValueString → Cipher → Json
kind_name names c =
    if (c.third + c.second * 256 + c.first * 65536) % 2 ^ 32 == 0x000FAC
    then vals names c.kind
    else string (hex_loop b' ' (c.kind ∷ []) [])

abbrev pub cipher_json : Cipher → Json
cipher_json c = object (
    member "Group Cipher Suite OUI" (organisation c)
      (member "Group Cipher Suite type" (kind_name ieee80211_rsn_cipher_vals c) no_member))

abbrev pub key_management_json : Cipher → Json
key_management_json c = object (
    member "Auth Key Management (AKM) OUI" (organisation c)
      (member "Auth Key Management (AKM) type" (kind_name ieee80211_rsn_keymgmt_vals c) no_member))

abbrev pub pmkid_json : Bytes → Json
pmkid_json id = object (member "PMKID" (string (hex_loop b' ' id [])) no_member)

abbrev bit : ℕ → ℕ → ℕ → Json
bit n mask shift = number (bit_and n mask / 2 ^ shift)

abbrev capabilities_json : ℕ → Json
capabilities_json n = object (
    member "RSN Pre-Auth capabilities" (bit n 1 0) (
      member "RSN No Pairwise capabilities" (bit n 2 1) (
        member "RSN PTKSA Replay Counter capabilities"
          (vals rsn_cap_replay_counter (bit_and n 12 / 2 ^ 2))
          (member "RSN GTKSA Replay Counter capabilities"
            (vals rsn_cap_replay_counter (bit_and n 48 / 2 ^ 4))
            (member "Management Frame Protection Required" (bit n 64 6) (
              member "Management Frame Protection Capable" (bit n 128 7)
                (member "PeerKey Enabled" (bit n 512 9) no_member)))))))

abbrev management_json : Cipher → Json
management_json c = object (
    member "Group Management Cipher Suite OUI" (organisation c) (
      member "Group Management Cipher Suite type" (kind_name ieee80211_rsn_cipher_vals c)
        no_member))

unfoldable pub shown : Security → Json
shown s = object (
    member "name" (label "RSN") (
      member "content"
        (object (
          member "RSN Version" (number s.version) (
            member "Group Cipher Suite OUI" (organisation s.group) (
              member "Group Cipher Suite type" (kind_name ieee80211_rsn_cipher_vals s.group) (
                member "Pairwise Cipher Suite Count" (number (length s.pairwise)) (
                  member "Pairwise Cipher Suite List" (array (items (map cipher_json s.pairwise))) (
                    member "Auth Key Management (AKM) Suite Count"
                      (number (length s.key_management))
                      (member "Auth Key Management (AKM) List"
                        (array (items (map key_management_json s.key_management)))
                        (member "RSN Capabilities" (capabilities_json s.capabilities) (
                          member "PMKID Count" (number (length s.pmkids)) (
                            member "PMKID List" (array (items (map pmkid_json s.pmkids))) (
                              member "Group Management Cipher Suite" (management_json s.management)
                                no_member))))))))))))
        (member "type" (number 48) no_member)))
