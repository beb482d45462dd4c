-- ===== src/WifiScan/Bounds.antt =====
-- Which elements are decoded from their own bytes: the sizes that the code relies on.
use wlan_cloud_ucentralgw.Base.{
  ℕ, ◌+◌, ◌-◌, ◌≤◌, ◌≡◌, ◌≢◌, refl, Bool, true, not, ◌&&◌, ◌||◌, [], ◌∷◌, length, leb, ◌==◌, ==_iff,
  leb_iff, arith, if◌then◌else◌,
}
use wlan_cloud_ucentralgw.WifiScan.Bytes.{Bytes, byte_at}
use wlan_cloud_ucentralgw.WifiScan.Elements.{
  fh_params, ds_params, tim, tim_content, partial_bitmap, country, qbss_content, qbss_load,
  pwr_constraint, erp_info, tpc_content, tpc_report, extension,
}
use wlan_cloud_ucentralgw.WifiScan.Envelope.Fits.{envelope_fits, tx_power_envelope-is_some}
use wlan_cloud_ucentralgw.WifiScan.Ht.{
  parse_mcs_set, ht_capability_fields, dissect_ht_capability_ie, ht_capability,
}
use wlan_cloud_ucentralgw.WifiScan.Json.{Json, Members, no_member}
use wlan_cloud_ucentralgw.WifiScan.Reads.{
  is_some, is_some-bind, is_some-guard, byte_at-within, get_uint16-within, get_uint32-within,
  buffer_to_hex-within,
}
use wlan_cloud_ucentralgw.WifiScan.Scan.{decode}
use wlan_cloud_ucentralgw.WifiScan.Vht.{
  vht_fields, vht_capability, rrm_fields, rrm_enabled_capabilities,
}

fh_params-is_some : (d : Bytes) → is_some (fh_params d) ≡ leb 5 (length d)
unfolding fh_params byte_at
fh_params-is_some [] = refl
fh_params-is_some (_ ∷ []) = refl
fh_params-is_some (_ ∷ _ ∷ []) = refl
fh_params-is_some (_ ∷ _ ∷ _ ∷ []) = refl
fh_params-is_some (_ ∷ _ ∷ _ ∷ _ ∷ []) = refl
fh_params-is_some (_ ∷ _ ∷ _ ∷ _ ∷ _ ∷ d) = ground arith

ds_params-is_some : (d : Bytes) → is_some (ds_params d) ≡ leb 1 (length d)
unfolding ds_params byte_at
ds_params-is_some [] = refl
ds_params-is_some (_ ∷ d) = ground arith

pwr_constraint-is_some : (d : Bytes) → is_some (pwr_constraint d) ≡ leb 1 (length d)
unfolding pwr_constraint byte_at
pwr_constraint-is_some [] = refl
pwr_constraint-is_some (_ ∷ d) = ground arith

erp_info-is_some : (d : Bytes) → is_some (erp_info d) ≡ leb 1 (length d)
unfolding erp_info byte_at
erp_info-is_some [] = refl
erp_info-is_some (_ ∷ d) = ground arith

country-is_some : (d : Bytes) → is_some (country d) ≡ leb 3 (length d)
unfolding country
country-is_some [] = refl
country-is_some (_ ∷ []) = refl
country-is_some (_ ∷ _ ∷ []) = refl
country-is_some (_ ∷ _ ∷ _ ∷ d) = ground arith

partial_bitmap-is_some : (d : Bytes) → is_some (partial_bitmap d) ≡ true
unfolding partial_bitmap
partial_bitmap-is_some d = ground (arith, buffer_to_hex-within d 3 (length d - 3) b' ')

tim_content-is_some : (d : Bytes) → 4 ≤ length d → is_some (tim_content d) ≡ true
unfolding tim_content
tim_content-is_some d h =
    let (_, e0) = byte_at-within d 0 (omega arith) in
    let (_, e1) = byte_at-within d 1 (omega arith) in
    let (_, e2) = byte_at-within d 2 (omega arith) in
    rw (e0, e1, e2) (is_some-bind _ _ (partial_bitmap-is_some d) (λ a. refl))

tim-is_some : (d : Bytes) → is_some (tim d) ≡ true
unfolding tim
tim-is_some d =
    is_some-guard (leb 4 (length d)) (tim_content d) _ _
      (λ h. tim_content-is_some d ((leb_iff _ _).0 h)) (λ a. refl)

qbss_load-is_some : (d : Bytes) → is_some (qbss_load d) ≡ not (length d == 4) && not (length d == 5)
unfolding qbss_load qbss_content byte_at
qbss_load-is_some [] = refl
qbss_load-is_some (_ ∷ []) = refl
qbss_load-is_some (_ ∷ _ ∷ []) = refl
qbss_load-is_some (_ ∷ _ ∷ _ ∷ []) = refl
qbss_load-is_some (_ ∷ _ ∷ _ ∷ _ ∷ []) = refl
qbss_load-is_some (_ ∷ _ ∷ _ ∷ _ ∷ _ ∷ []) = refl
qbss_load-is_some (_ ∷ _ ∷ _ ∷ _ ∷ _ ∷ _ ∷ d) = ground arith

tpc_report-is_some : (d : Bytes) → is_some (tpc_report d) ≡ true
unfolding tpc_report tpc_content byte_at
tpc_report-is_some [] = refl
tpc_report-is_some (_ ∷ []) = refl
tpc_report-is_some (_ ∷ _ ∷ d) = ground arith

extension-is_some : (d : Bytes) → is_some (extension d) ≡ leb 1 (length d)
unfolding extension byte_at
extension-is_some [] = refl
extension-is_some (b ∷ d) = ground (
  arith,
  buffer_to_hex-within (b ∷ d) 0 1 b' ',
  buffer_to_hex-within (b ∷ d) 1 (length (b ∷ d) - 1) b' ',
)

pub parse_mcs_set-within :
    (d : Bytes) (i : ℕ) (content : Members)
    → i + 4 ≤ length d
    → is_some (parse_mcs_set d i content) ≡ true
unfolding parse_mcs_set
parse_mcs_set-within d i content h =
    let (b0, e0) = byte_at-within d i (omega arith) in
    let (b1, e1) = byte_at-within d (i + 1) (omega arith) in
    let (b2, e2) = byte_at-within d (i + 2) (omega arith) in
    let (b3, e3) = byte_at-within d (i + 3) (omega arith) in rw (e0, e1, e2, e3)

ht_capability_fields-within :
    (d : Bytes) (content : Members)
    → 26 ≤ length d
    → is_some (ht_capability_fields d content) ≡ true
unfolding ht_capability_fields
ht_capability_fields-within d content h =
    let (_, e0) = get_uint16-within d 0 (omega arith) in
    let (_, e1) = byte_at-within d 2 (omega arith) in
    let (_, e2) = byte_at-within d 19 (omega arith) in
    let (_, e3) = byte_at-within d 20 (omega arith) in
    let (_, e4) = get_uint32-within d 21 (omega arith) in
    let (_, e5) = byte_at-within d 25 (omega arith) in
    rw (e0, e1, e2, e3, e4, e5)
      (is_some-bind _ _ (parse_mcs_set-within d 3 _ (omega arith)) (λ a. refl))

ht_fields-guarded :
    (d : Bytes)
    → (length d == 26) ≡ true
    → is_some (dissect_ht_capability_ie d (length d) no_member) ≡ true
unfolding dissect_ht_capability_ie
ht_fields-guarded d h = ground (arith, ht_capability_fields-within d no_member)

ht_capability-is_some : (d : Bytes) → is_some (ht_capability d) ≡ true
unfolding ht_capability
ht_capability-is_some d =
    is_some-guard (length d == 26) (dissect_ht_capability_ie d (length d) no_member) _ _
      (λ h. ht_fields-guarded d h) (λ a. refl)

vht_fields-within : (d : Bytes) → 12 ≤ length d → is_some (vht_fields d) ≡ true
unfolding vht_fields
vht_fields-within d h =
    let (_, e) = get_uint32-within d 0 (omega arith) in
    rw e (parse_mcs_set-within d 4 _ (omega arith))

vht_capability-is_some : (d : Bytes) → is_some (vht_capability d) ≡ true
unfolding vht_capability
vht_capability-is_some d =
    is_some-guard (length d == 12) (vht_fields d) _ _
      (λ h. vht_fields-within d (omega (arith, (==_iff (length d) 12).0 h))) (λ a. refl)

rrm_enabled_capabilities-is_some : (d : Bytes) → is_some (rrm_enabled_capabilities d) ≡ true
unfolding rrm_enabled_capabilities rrm_fields byte_at
rrm_enabled_capabilities-is_some [] = refl
rrm_enabled_capabilities-is_some (_ ∷ []) = refl
rrm_enabled_capabilities-is_some (_ ∷ _ ∷ []) = refl
rrm_enabled_capabilities-is_some (_ ∷ _ ∷ _ ∷ []) = refl
rrm_enabled_capabilities-is_some (_ ∷ _ ∷ _ ∷ _ ∷ []) = refl
rrm_enabled_capabilities-is_some (_ ∷ _ ∷ _ ∷ _ ∷ _ ∷ d) = ground arith

-- The sizes at which an element of a type is decoded from its own bytes.
unfoldable pub fits : ℕ → Bytes → Bool
unfolding envelope_fits
fits type d =
    let n = length d in
    if type == 195
    then envelope_fits d
    else if type == 11
    then not (n == 4) && not (n == 5)
    else if type == 2
    then leb 5 n
    else if type == 7
    then leb 3 n
    else if type == 3 || type == 32 || type == 42 || type == 255
    then leb 1 n
    else true

-- An element of any type but RSN (48) and that of a vendor (221) is decoded from its own bytes
-- exactly if it has the size that its type asks for: frequency hopping five bytes, country three,
-- channel, power constraint, protection and extension one; the power envelope, where it has two
-- to five bytes at all, one byte more behind the first than the first says, up to four. The load
-- of a network is never decoded from its own bytes where it has four or five bytes, the only
-- sizes that are decoded. All other types are, whatever their size.
pub decode-is_some :
    (ie : Json) (type : ℕ) (d : Bytes)
    → type ≢ 48
    → type ≢ 221
    → is_some (decode ie type d) ≡ fits type d
unfolding decode fits
decode-is_some ie type d h k = ground (
  arith,
  country-is_some d,
  fh_params-is_some d,
  ds_params-is_some d,
  tim-is_some d,
  qbss_load-is_some d,
  pwr_constraint-is_some d,
  erp_info-is_some d,
  ht_capability-is_some d,
  tx_power_envelope-is_some d,
  vht_capability-is_some d,
  rrm_enabled_capabilities-is_some d,
  tpc_report-is_some d,
  extension-is_some d,
)
