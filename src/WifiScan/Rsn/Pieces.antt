-- ===== src/WifiScan/Rsn/Pieces.antt =====
-- What the decoder of RSN finds in each piece of an element, with any bytes behind it.
use wlan_cloud_ucentralgw.Base.{
  ℕ, ◌+◌, ◌-◌, ◌*◌, ◌/◌, ◌%◌, ◌^◌, ◌<◌, ◌≡◌, refl, List, [], ◌∷◌, ◌++◌, map, some, All, length,
  length-append, true, leb, ltb, arith, ◌==◌, if◌then◌else◌,
}
use Prim.Native.String.{String}
use mathlib.Core.List.{append_assoc}
use wlan_cloud_ucentralgw.WifiScan.At.{
  At, At-step, At-fits, byte_at-At, get_uint16-At, get_uint24_big-At, buffer_to_hex-At,
}
use wlan_cloud_ucentralgw.WifiScan.Bytes.{Bytes, buffer_to_hex, hex_loop}
use wlan_cloud_ucentralgw.WifiScan.Json.{
  Json, number, string, array, Members, no_member, items, put, assign, assign_in, content_of,
}
use wlan_cloud_ucentralgw.WifiScan.Labels.{vals}
use wlan_cloud_ucentralgw.WifiScan.Rsn.Encoding.{Cipher, word, cipher_bytes, joined, pmkid_json}
use wlan_cloud_ucentralgw.WifiScan.Rsn.{
  Suite, suite_type, suite, suites, counted_suites, capability_fields, rsn_capabilities, pmkid_list,
  pmkids, group_management, management_suite,
}

-- What is shown of a suite.
abbrev pub type_json : Suite → Cipher → Json
type_json k c =
    if (c.third + c.second * 256 + c.first * 65536) % 2 ^ 32 == k.known
    then vals k.names c.kind
    else string (hex_loop b' ' (c.kind ∷ []) [])

abbrev pub oui_json : Suite → Cipher → Json
oui_json k c = string (hex_loop k.separator (c.first ∷ c.second ∷ c.third ∷ []) [])

abbrev pub entry_json : Suite → Cipher → Json
entry_json k c =
    content_of (assign ((k.oui_key, oui_json k c) ∷ (k.type_key, type_json k c) ∷ []) no_member)

pub suite_type-At :
    (k : Suite) (oui : ℕ) {d : Bytes} {offset : ℕ} (b : ℕ) (back : Bytes)
    → At d offset (b ∷ back)
    → suite_type k oui d offset
      ≡ some (if oui == k.known then vals k.names b else string (hex_loop b' ' (b ∷ []) []))
unfolding suite_type
suite_type-At k oui b back at =
    let dump = buffer_to_hex-At (b ∷ []) b' ' back at (omega arith) in
    rw (byte_at-At at) (ground (arith, dump))

pub suite-At :
    (k : Suite) (c : Cipher) {d : Bytes} {offset : ℕ} (back : Bytes)
    → At d offset (cipher_bytes c ++ back)
    → suite k d offset ≡ some ((k.oui_key, oui_json k c) ∷ (k.type_key, type_json k c) ∷ [])
unfolding suite
suite-At k c {d} {offset} back at =
    let same : offset + 3 - 3 ≡ offset = omega arith in
    let oui = c.first ∷ c.second ∷ c.third ∷ [] in
    rw (get_uint24_big-At at) (
      rw (
        same,
        buffer_to_hex-At oui k.separator (c.kind ∷ back) at (omega arith),
        suite_type-At k _ c.kind back (At-step oui at),
      ))

pub suites-At :
    (k : Suite) (cs : List Cipher) {d : Bytes} {offset : ℕ} (back : Bytes)
    → At d offset (joined (map cipher_bytes cs) ++ back)
    → suites (length cs) k d offset ≡ some (map (entry_json k) cs)
unfolding suites joined
suites-At k [] back at = refl
suites-At k (c ∷ cs) back at =
    let rest = joined (map cipher_bytes cs) ++ back in
    rw (suite-At k c rest at, suites-At k cs back (At-step (cipher_bytes c) at))

pub length-joined : (cs : List Cipher) → length (joined (map cipher_bytes cs)) ≡ length cs * 4
unfolding joined
length-joined [] = refl
length-joined (c ∷ cs) = omega (arith, length-joined cs)

-- A number of two bytes is read back.
pub word_eq : (n : ℕ) → n < 2 ^ 16 → (n % 256 + n / 256 * 256) % 2 ^ 16 ≡ n
word_eq n h = omega arith

pub counted_suites-At :
    (k : Suite) (count_key list_key : String) (cs : List Cipher) {d : Bytes} {offset : ℕ}
    (content : Members) (back : Bytes)
    → length cs < 2 ^ 16
    → At d offset (word (length cs) ++ (joined (map cipher_bytes cs) ++ back))
    → counted_suites k count_key list_key d offset content
      ≡ some (
        put list_key
            (array (items (map (entry_json k) cs)))
            (put count_key (number (length cs)) content),
        offset + 2 + length cs * 4,
      )
unfolding counted_suites
counted_suites-At k count_key list_key cs {d} {offset} content back few at =
    let n = length cs in
    let behind = At-step (word n) at in
    let begun : ltb offset (length d) ≡ true = ground (arith, At-fits at) in
    let fit : leb (offset + 2 + n * 4) (length d) ≡ true = ground (
      arith,
      At-fits behind,
      length-joined cs,
      length-append (joined (map cipher_bytes cs)) back,
    ) in
    rw (begun, get_uint16-At at, word_eq n few, fit, suites-At k cs back behind)

pub behind_suites :
    (cs : List Cipher) {d : Bytes} {offset : ℕ} {back : Bytes}
    → At d offset (word (length cs) ++ (joined (map cipher_bytes cs) ++ back))
    → At d (offset + 2 + length cs * 4) back
behind_suites cs {d} {offset} {back} at =
    let behind = At-step (joined (map cipher_bytes cs)) (At-step (word (length cs)) at) in
    rw (← length-joined cs) behind

-- One PMKID, with the others behind it.
pmkid_here :
    (id rest back : Bytes) {d : Bytes} {offset : ℕ}
    → At d offset ((id ++ rest) ++ back)
    → At d offset (id ++ (rest ++ back))
pmkid_here id rest back at = rw (← append_assoc id rest back) at

pmkid-At :
    (id back : Bytes) {d : Bytes} {offset : ℕ}
    → length id ≡ 16
    → At d offset (id ++ back)
    → buffer_to_hex d offset 16 b' ' ≡ some (string (hex_loop b' ' id []))
pmkid-At id back whole at = rw (← whole) (buffer_to_hex-At id b' ' back at (omega (arith, whole)))

pmkid_next :
    (id : Bytes) {back d : Bytes} {offset : ℕ}
    → length id ≡ 16
    → At d offset (id ++ back)
    → At d (offset + 16) back
pmkid_next id whole at = rw (← whole) (At-step id at)

pmkid_list-At :
    (ids : List Bytes) {d : Bytes} {offset : ℕ} (back : Bytes)
    → All (λ id. length id ≡ 16) ids
    → At d offset (joined ids ++ back)
    → pmkid_list (length ids) d offset ≡ some (map pmkid_json ids)
unfolding pmkid_list joined content_of put
pmkid_list-At [] back whole at = refl
pmkid_list-At (id ∷ ids) {d} {offset} back (whole, rest) at =
    let here = pmkid_here id (joined ids) back at in
    rw (pmkid-At id (joined ids ++ back) whole here)
      (rw (pmkid_list-At ids back rest (pmkid_next id whole here)) refl)

pub rsn_capabilities-At :
    (n : ℕ) {d : Bytes} {offset : ℕ} (content : Members) (back : Bytes)
    → n < 2 ^ 16
    → At d offset (word n ++ back)
    → rsn_capabilities d offset content
      ≡ some (assign_in "RSN Capabilities" (capability_fields n) content, offset + 2)
unfolding rsn_capabilities
rsn_capabilities-At n {d} {offset} content back small at =
    let fit : leb (offset + 2) (length d) ≡ true = ground (arith, At-fits at) in
    rw (fit, get_uint16-At at, word_eq n small)

length-joined_pmkids :
    (ids : List Bytes) → All (λ id. length id ≡ 16) ids → length (joined ids) ≡ length ids * 16
unfolding joined
length-joined_pmkids [] whole = refl
length-joined_pmkids (id ∷ ids) (whole, rest) =
    omega (arith, length-append id (joined ids), length-joined_pmkids ids rest)

pub pmkids-At :
    (ids : List Bytes) {d : Bytes} {offset : ℕ} (content : Members) (back : Bytes)
    → length ids < 2 ^ 16
    → All (λ id. length id ≡ 16) ids
    → At d offset (word (length ids) ++ (joined ids ++ back))
    → pmkids d offset content
      ≡ some (
        put "PMKID List"
            (array (items (map pmkid_json ids)))
            (put "PMKID Count" (number (length ids)) content),
        offset + 2 + length ids * 16,
      )
unfolding pmkids
pmkids-At ids {d} {offset} content back few whole at =
    let n = length ids in
    let behind = At-step (word n) at in
    let begun : leb (offset + 2) (length d) ≡ true = ground (arith, At-fits at) in
    let fit : leb (offset + 2 + n * 16) (length d) ≡ true =
      ground
        (arith, At-fits behind, length-joined_pmkids ids whole, length-append (joined ids) back) in
    rw (begun, get_uint16-At at, word_eq n few, fit, pmkid_list-At ids back whole behind)

pub behind_pmkids :
    (ids : List Bytes) {d : Bytes} {offset : ℕ} {back : Bytes}
    → All (λ id. length id ≡ 16) ids
    → At d offset (word (length ids) ++ (joined ids ++ back))
    → At d (offset + 2 + length ids * 16) back
behind_pmkids ids {d} {offset} {back} whole at =
    rw (← length-joined_pmkids ids whole) (At-step (joined ids) (At-step (word (length ids)) at))

pub group_management-At :
    (c : Cipher) {d : Bytes} {offset : ℕ} (content : Members)
    → At d offset (cipher_bytes c ++ [])
    → group_management d offset content
      ≡ some (
          assign_in "Group Management Cipher Suite"
            ((management_suite.oui_key, oui_json management_suite c)
              ∷ (management_suite.type_key, type_json management_suite c)
              ∷ [])
            content)
unfolding group_management
group_management-At c {d} {offset} content at =
    let fit : leb (offset + 4) (length d) ≡ true = ground (arith, At-fits at) in
    rw (fit, suite-At management_suite c [] at)
