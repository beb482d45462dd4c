-- ===== src/WifiScan/Rsn/RoundTrip.antt =====
-- What the decoder shows of an element of RSN that is written as the standard says.
use wlan_cloud_ucentralgw.Base.{◌≡◌, refl, [], ◌∷◌, ◌++◌, map, some, length}
use wlan_cloud_ucentralgw.WifiScan.At.{At, At-start, At-step, get_uint16-At}
use wlan_cloud_ucentralgw.WifiScan.Bytes.{Bytes, field}
use wlan_cloud_ucentralgw.WifiScan.Elements.{element}
use wlan_cloud_ucentralgw.WifiScan.Json.{
  number, array, Members, no_member, items, put, assign, assign_in, content_of,
}
use wlan_cloud_ucentralgw.WifiScan.Rsn.Encoding.{
  Security, word, cipher_bytes, joined, encode, IsSound, pmkid_json, shown,
}
use wlan_cloud_ucentralgw.WifiScan.Rsn.Pieces.{
  type_json, oui_json, entry_json, suite-At, word_eq, counted_suites-At, behind_suites,
  rsn_capabilities-At, pmkids-At, behind_pmkids, group_management-At,
}
use wlan_cloud_ucentralgw.WifiScan.Rsn.{
  capability_fields, group_suite, akm_suite, management_suite, rsn_front, rsn_tail, rsn,
}

-- The members in front of the tail, and all of them.
abbrev front_json : Security → Members
front_json s =
    assign
      (("RSN Version", number s.version)
        ∷ (group_suite.oui_key, oui_json group_suite s.group)
        ∷ (group_suite.type_key, type_json group_suite s.group)
        ∷ [])
      no_member

abbrev lists_json : Security → Members
lists_json s =
    put "Auth Key Management (AKM) List"
      (array (items (map (entry_json akm_suite) s.key_management)))
      (put "Auth Key Management (AKM) Suite Count" (number (length s.key_management)) (
        put "Pairwise Cipher Suite List" (array (items (map (entry_json group_suite) s.pairwise)))
          (put "Pairwise Cipher Suite Count" (number (length s.pairwise)) (front_json s))))

abbrev content_json : Security → Members
content_json s =
    assign_in "Group Management Cipher Suite"
      ((management_suite.oui_key, oui_json management_suite s.management)
        ∷ (management_suite.type_key, type_json management_suite s.management)
        ∷ [])
      (put "PMKID List" (array (items (map pmkid_json s.pmkids))) (
        put "PMKID Count" (number (length s.pmkids))
          (assign_in "RSN Capabilities" (capability_fields s.capabilities) (lists_json s))))

-- The bytes behind the suite of the group.
abbrev tail_bytes : Security → Bytes
tail_bytes s =
    word (length s.pairwise)
    ++ (joined (map cipher_bytes s.pairwise)
        ++ (word (length s.key_management)
            ++ (joined (map cipher_bytes s.key_management)
                ++ (word s.capabilities
                    ++ (word (length s.pmkids)
                        ++ (joined s.pmkids ++ (cipher_bytes s.management ++ [])))))))

rsn_tail-At :
    (s : Security) {d : Bytes}
    → IsSound s
    → At d 6 (tail_bytes s)
    → rsn_tail d 6 (front_json s) ≡ some (content_json s)
unfolding rsn_tail
rsn_tail-At s sound at =
    let at1 = behind_suites s.pairwise at in
    let at2 = behind_suites s.key_management at1 in
    let at3 = At-step (word s.capabilities) at2 in
    let at4 = behind_pmkids s.pmkids sound.pmkids_whole at3 in
    rw (
      counted_suites-At group_suite _ _ s.pairwise _ _ sound.pairwise_few at,
      counted_suites-At akm_suite _ _ s.key_management _ _ sound.key_management_few at1,
      rsn_capabilities-At s.capabilities _ _ sound.capabilities_small at2,
      pmkids-At s.pmkids _ _ sound.pmkids_few sound.pmkids_whole at3,
      group_management-At s.management _ at4,
    )

rsn_front-At :
    (s : Security) {d : Bytes}
    → IsSound s
    → At d 0 (word s.version ++ (cipher_bytes s.group ++ tail_bytes s))
    → rsn_front d ≡ some (front_json s)
unfolding rsn_front
rsn_front-At s sound at = rw (
  get_uint16-At at,
  word_eq s.version sound.version_small,
  suite-At group_suite s.group (tail_bytes s) (At-step (word s.version) at),
)

shown_eq : (s : Security) → element "RSN" (content_of (content_json s)) 48 ≡ shown s
unfolding shown element content_of assign_in put capability_fields field
shown_eq s = refl

-- Let an element of RSN be written as the standard says, with a version and capabilities of two
-- bytes, key identifiers of sixteen, and any lists of pairwise suites, of key managements and of
-- key identifiers that two bytes can count. It is shown as what it says: the numbers, each list
-- in order and under its own name, each suite by its organisation and its type, the capabilities,
-- and the suite of the management frames.
pub rsn-encode : (s : Security) → IsSound s → rsn (encode s) ≡ some (shown s)
unfolding rsn encode
rsn-encode s sound =
    let at = At-start (encode s) in
    let at6 = At-step (cipher_bytes s.group) (At-step (word s.version) at) in
    rw (rsn_front-At s sound at, rsn_tail-At s sound at6, shown_eq s)
