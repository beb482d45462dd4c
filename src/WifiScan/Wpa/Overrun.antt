-- ===== src/WifiScan/Wpa/Overrun.antt =====
-- A list of suites that is longer than its bytes, in the elements of WPA.
use wlan_cloud_ucentralgw.Base.{
  ℕ, zero, suc, ◌+◌, ◌-◌, ◌*◌, ◌%◌, ◌^◌, ◌≤◌, ◌<◌, ◌≡◌, refl, Bool, true, false, ◌∷◌, none, some,
  length, leb, ltb, arith, leb_iff,
}
use wlan_cloud_ucentralgw.WifiScan.Bytes.{Bytes, byte_at, get_uint16, get_uint24_big, buffer_to_hex}
use wlan_cloud_ucentralgw.WifiScan.Json.{Json, Members}
use wlan_cloud_ucentralgw.WifiScan.Reads.{bind-none, byte_at-outside, get_uint24_big-behind}
use wlan_cloud_ucentralgw.WifiScan.Rsn.{Suite, suite_type, suite, suites}
use wlan_cloud_ucentralgw.WifiScan.Scan.{decode}
use wlan_cloud_ucentralgw.WifiScan.Vendor.{vendor_content, vendor_specific}
use wlan_cloud_ucentralgw.WifiScan.Wpa.{unicast_suite, listed_suites, wpa, dissect_wpawme}

suite_type-outside :
    (k : Suite) (oui : ℕ) (d : Bytes) (offset : ℕ)
    → length d ≤ offset
    → suite_type k oui d offset ≡ none
unfolding suite_type
suite_type-outside k oui d offset h = rw (byte_at-outside d offset h)

suite-outside :
    (k : Suite) (d : Bytes) (offset : ℕ) → length d < offset + 4 → suite k d offset ≡ none
unfolding suite
suite-outside k d offset h = bind-none (get_uint24_big d offset) _ (λ read e.
    let place = get_uint24_big-behind d offset read e in
    bind-none (buffer_to_hex d (read.1 - 3) 3 k.separator) _
      (λ name _. rw (suite_type-outside k read.0 d read.1 (omega (arith, place)))))

pub suites-outside :
    (count : ℕ) (k : Suite) (d : Bytes) (offset : ℕ)
    → offset ≤ length d
    → length d < offset + count * 4
    → suites count k d offset ≡ none
unfolding suites
suites-outside zero k d offset h out = absurd (omega arith)
suites-outside (suc count) k d offset h out =
    go (leb (offset + 4) (length d)) refl
      (λ fit. suites-outside count k d (offset + 4) fit (omega arith))
  where
    go :
        (fit : Bool)
        → leb (offset + 4) (length d) ≡ fit
        → (offset + 4 ≤ length d → suites count k d (offset + 4) ≡ none)
        → suites (suc count) k d offset ≡ none
    go true fit later = bind-none (suite k d offset) _ (λ entry _. rw (later ((leb_iff _ _).0 fit)))
    go false short later = rw (suite-outside k d offset (ground arith))

-- The bytes of a list of suites: its count, and its suites.
listed_suites-outside :
    (k : Suite) (d : Bytes) (offset count : ℕ)
    → offset + 2 ≤ length d
    → get_uint16 d offset ≡ some (count, offset + 2)
    → length d < offset + 2 + count * 4
    → listed_suites k d offset ≡ none
unfolding listed_suites
listed_suites-outside k d offset count h e out = rw (e, suites-outside count k d (offset + 2) h out)

-- What stands behind the organisation: the type 1, the version, the suite of the group, the count.
wpa-outside :
    (v0 v1 o0 o1 o2 kind c0 c1 : ℕ) (rest : Bytes) (ie : Members)
    → length rest < (c0 + c1 * 256) % 2 ^ 16 * 4
    → wpa (1 ∷ v0 ∷ v1 ∷ o0 ∷ o1 ∷ o2 ∷ kind ∷ c0 ∷ c1 ∷ rest) ie ≡ none
unfolding wpa byte_at
wpa-outside v0 v1 o0 o1 o2 kind c0 c1 rest ie h =
    let d = 1 ∷ v0 ∷ v1 ∷ o0 ∷ o1 ∷ o2 ∷ kind ∷ c0 ∷ c1 ∷ rest in
    bind-none (suite_type unicast_suite ((o2 + o1 * 256 + o0 * 65536) % 2 ^ 32) d 6) _
      (λ shown _. rw (listed_suites-outside unicast_suite d 7 _ (omega arith) refl (omega arith)))

-- An element of WPA whose number of unicast ciphers is greater than the bytes behind it can hold
-- is read past its end.
pub wpa-overruns :
    (ie : Json) (v0 v1 o0 o1 o2 kind c0 c1 : ℕ) (rest : Bytes)
    → length rest < (c0 + c1 * 256) % 2 ^ 16 * 4
    → decode ie 221 (0x00 ∷ 0x50 ∷ 0xF2 ∷ 1 ∷ v0 ∷ v1 ∷ o0 ∷ o1 ∷ o2 ∷ kind ∷ c0 ∷ c1 ∷ rest) ≡ none
unfolding decode vendor_specific vendor_content dissect_wpawme byte_at
wpa-overruns ie v0 v1 o0 o1 o2 kind c0 c1 rest h =
    let d = 0x00 ∷ 0x50 ∷ 0xF2 ∷ 1 ∷ v0 ∷ v1 ∷ o0 ∷ o1 ∷ o2 ∷ kind ∷ c0 ∷ c1 ∷ rest in
    let long : leb 3 (length d) ≡ true = ground arith in
    let more : ltb 1 (length d - 3) ≡ true = ground arith in
    rw (wpa-outside v0 v1 o0 o1 o2 kind c0 c1 rest _ h, long, more)
