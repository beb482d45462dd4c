-- ===== src/WifiScan/Envelope/Fits.antt =====
-- The sizes at which the power envelope is decoded from its own bytes.
use Prim.Native.Nat.{min}
use wlan_cloud_ucentralgw.Base.{
  ℕ, zero, suc, ◌+◌, ◌≡◌, refl, ◌∙◌, Bool, true, ◌||◌, [], ◌∷◌, length, leb, ltb, ◌==◌, arith,
}
use wlan_cloud_ucentralgw.WifiScan.Bytes.{Bytes, byte_at}
use wlan_cloud_ucentralgw.WifiScan.Json.{Members, no_member}
use wlan_cloud_ucentralgw.WifiScan.Reads.{is_some, is_some-both, byte_at-is_some}
use wlan_cloud_ucentralgw.WifiScan.Envelope.{
  tx_power_envelope, envelope_content, envelope_loop, envelope_value,
}

-- The last byte that the loop reads is the fifth.
envelope_value-is_some :
    (d : Bytes) (i : ℕ) → is_some (envelope_value d i) ≡ (leb 4 i || ltb (i + 1) (length d))
unfolding envelope_value
envelope_value-is_some d i = ground (arith, byte_at-is_some d (i + 1))

envelope_loop-is_some :
    (rounds : ℕ) (d : Bytes) (i : ℕ) (content : Members)
    → is_some (envelope_loop rounds d i content)
      ≡ (leb 4 i || leb (min (i + rounds) 4) i || leb (min (i + rounds) 4 + 1) (length d))
unfolding envelope_loop
envelope_loop-is_some zero d i content = ground arith
envelope_loop-is_some (suc rounds) d i content =
    is_some-both _ _ (λ v. envelope_loop-is_some rounds d (suc i) _)
    ∙ ground (arith, envelope_value-is_some d i)

-- The length that the first byte gives, and the bytes that are there.
unfoldable pub envelope_fits : Bytes → Bool
envelope_fits [] = true
envelope_fits (len ∷ d) = let n = length d in (n == 0) || ltb 4 n || leb (min (len + 1) 4) n

envelope_content-is_some : (d : Bytes) → is_some (envelope_content d) ≡ envelope_fits d
unfolding envelope_content envelope_fits byte_at
envelope_content-is_some [] = refl
envelope_content-is_some (len ∷ d) =
    ground (arith, envelope_loop-is_some (suc len) (len ∷ d) 0 no_member)

pub tx_power_envelope-is_some : (d : Bytes) → is_some (tx_power_envelope d) ≡ envelope_fits d
unfolding tx_power_envelope
tx_power_envelope-is_some d =
    is_some-both (envelope_content d) _ (λ a. refl) ∙ ground (arith, envelope_content-is_some d)
