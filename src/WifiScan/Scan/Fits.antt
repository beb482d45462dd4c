-- ===== src/WifiScan/Scan/Fits.antt =====
-- Which answers to a scan are parsed from the bytes of their own elements.
use Prim.Native.String.{String}
use wlan_cloud_ucentralgw.Base.{
  ℕ, ◌+◌, ◌-◌, ◌*◌, ◌%◌, ◌^◌, ◌≤◌, ◌≡◌, refl, Bool, true, false, not, ◌&&◌, [], ◌∷◌, some, length,
  leb, ◌==◌, arith, if◌then◌else◌,
}
use wlan_cloud_ucentralgw.WifiScan.Bounds.{fits, decode-is_some}
use wlan_cloud_ucentralgw.WifiScan.Bytes.{Bytes, ◌>>=◌, byte_at, buffer_to_hex}
use wlan_cloud_ucentralgw.WifiScan.Json.{Json, no_member, put}
use wlan_cloud_ucentralgw.WifiScan.Reads.{
  is_some, is_some-bind, is_some-guard, buffer_to_hex-is_some,
}
use wlan_cloud_ucentralgw.WifiScan.Rsn.Even.{rsn-is_some}
use wlan_cloud_ucentralgw.WifiScan.Scan.{decode}
use wlan_cloud_ucentralgw.WifiScan.Vendor.{less_one, dissect_dump, vendor_content, vendor_specific}

-- A vendor's element that is shown as it is: not of WPA, RSN or the draft of high throughput, and
-- with a byte behind the organisation.
abbrev plain : ℕ → Bool
plain oui = not (oui == 0x0050F2) && not (oui == 0x000FAC) && not (oui == 0x00904C)

unfoldable pub fits_vendor : Bytes → Bool
fits_vendor (a ∷ b ∷ c ∷ _ ∷ _) = plain ((c + b * 256 + a * 65536) % 2 ^ 32)
fits_vendor (a ∷ b ∷ c ∷ []) = false
fits_vendor _ = true

-- The size that an element of a type needs; RSN an even one from six bytes on.
unfoldable pub fits_element : ℕ → Bytes → Bool
unfolding fits fits_vendor
fits_element type d =
    if type == 48
    then leb 6 (length d) && (length d % 2 == 0)
    else if type == 221
    then fits_vendor d
    else fits type d

behind : (a b c : ℕ) (rest : Bytes) → length (a ∷ b ∷ c ∷ rest) - 3 ≡ length rest
behind a b c rest = omega arith

dump-is_some :
    (d : Bytes) → 1 ≤ length d → is_some (buffer_to_hex d 1 (less_one (length d)) b' ') ≡ true
dump-is_some d h = ground (arith, buffer_to_hex-is_some d 1 (less_one (length d)) b' ')

dissect_dump-is_some :
    (vendor : String) (b : Bytes) → 1 ≤ length b → is_some (dissect_dump vendor b (length b)) ≡ true
unfolding dissect_dump
dissect_dump-is_some vendor b h = is_some-bind _ _ (dump-is_some b h) (λ _. refl)

whole_dump-is_some :
    (d : Bytes)
    → is_some (buffer_to_hex d 0 (length d) b' ' >>= λ dump. some (put "content" dump no_member))
      ≡ true
whole_dump-is_some d = is_some-bind _ _ whole (λ _. refl)
  where
    whole : is_some (buffer_to_hex d 0 (length d) b' ') ≡ true
    whole = ground (arith, buffer_to_hex-is_some d 0 (length d) b' ')

vendor_dump-is_some :
    (vendor : String) (a b c x : ℕ) (rest : Bytes)
    → is_some (dissect_dump vendor (x ∷ rest) (length (a ∷ b ∷ c ∷ x ∷ rest) - 3)) ≡ true
vendor_dump-is_some vendor a b c x rest =
    rw (behind a b c (x ∷ rest)) (dissect_dump-is_some vendor (x ∷ rest) (omega arith))

vendor_content-is_some :
    (oui a b c x : ℕ) (rest : Bytes)
    → plain oui ≡ true
    → is_some (vendor_content oui (a ∷ b ∷ c ∷ x ∷ rest)) ≡ true
unfolding vendor_content
vendor_content-is_some oui a b c x rest h =
    let dump = λ (vendor : String). vendor_dump-is_some vendor a b c x rest in
    ground (
      arith,
      dump "Wi-Fi Alliance",
      dump "Cisco Wireless (Aironet)",
      dump "Marvell Semiconductor",
      dump "Atheros Communications",
      dump "Aruba Networks",
      dump "Nintendo",
      whole_dump-is_some (a ∷ b ∷ c ∷ x ∷ rest),
    )

vendor_specific-is_some : (d : Bytes) → fits_vendor d ≡ true → is_some (vendor_specific d) ≡ true
unfolding vendor_specific fits_vendor byte_at
vendor_specific-is_some [] h = refl
vendor_specific-is_some (_ ∷ []) h = refl
vendor_specific-is_some (_ ∷ _ ∷ []) h = refl
vendor_specific-is_some (a ∷ b ∷ c ∷ []) h = absurd (ground arith)
vendor_specific-is_some (a ∷ b ∷ c ∷ x ∷ rest) h =
    let oui = (c + b * 256 + a * 65536) % 2 ^ 32 in
    is_some-guard (leb 3 (length (a ∷ b ∷ c ∷ x ∷ rest)))
      (vendor_content oui (a ∷ b ∷ c ∷ x ∷ rest)) _ _
      (λ _. vendor_content-is_some oui a b c x rest h) (λ _. refl)

pub decode_fits :
    (ie : Json) (type : ℕ) (d : Bytes)
    → fits_element type d ≡ true
    → is_some (decode ie type d) ≡ true
unfolding fits_element decode
decode_fits ie type d h = go (type == 48) refl (type == 221) refl
  where
    go :
        (is_rsn : Bool)
        → (type == 48) ≡ is_rsn
        → (is_vendor : Bool) → (type == 221) ≡ is_vendor
        → is_some (decode ie type d) ≡ true
    go true e _ _ = ground (arith, rsn-is_some d)
    go false e true e' = ground (arith, vendor_specific-is_some d)
    go false e false e' = ground (arith, decode-is_some ie type d)
