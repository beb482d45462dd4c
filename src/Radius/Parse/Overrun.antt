-- ===== src/Radius/Parse/Overrun.antt =====
-- What `ParseRadius` of RADIUS_helpers.h lets pass.
use wlan_cloud_ucentralgw.Base.{
  ℕ, suc, ◌+◌, ◌-◌, ◌%◌, ◌^◌, ◌≤◌, ◌<◌, ◌≡◌, ap, ◌∙◌, true, [], ◌∷◌, arith,
}
use wlan_cloud_ucentralgw.Radius.Wire.{parse_loop-end}
use wlan_cloud_ucentralgw.Radius.Parse.{Buffer, attribute_at, parse_loop, parse_radius}

overrun-step :
    (x : ℕ) (buffer : Buffer) (size n : ℕ)
    → buffer 1 ≡ n + 2
    → n ≤ size
    → 2 ≤ size
    → n < 2 ^ 15
    → parse_loop (suc x) 0 buffer size 0 []
      ≡ parse_loop x 0 buffer size (n + 2) (record { type = buffer 0; pos = 2; len = n } ∷ [])
unfolding parse_loop attribute_at
overrun-step x buffer size n e fits lo short =
    let len : (n + 2 + 2 ^ 32 - 2) % 2 ^ 32 ≡ n = omega arith in
    let wrap : (0 + n) % 2 ^ 32 ≡ n = omega arith in
    let next : (0 + (n + 2)) % 2 ^ 16 ≡ n + 2 = omega arith in
    rw (e, len, next) (ground (arith, wrap))

-- Let a buffer of `size` bytes begin with a header that claims one or two bytes more than there
-- are. It is accepted, and its value ends as many bytes beyond the buffer.
pub parse_radius-overruns :
    (buffer : Buffer) (size : ℕ)
    → 2 ≤ size
    → size < buffer 1
    → buffer 1 ≤ size + 2
    → buffer 1 < 256
    → let r = parse_radius 0 buffer size in
      (r.0 ≡ true)
      × (r.1 ≡ record { type = buffer 0; pos = 2; len = buffer 1 - 2 } ∷ [])
      × (size < 2 + (buffer 1 - 2))
unfolding parse_radius
parse_radius-overruns buffer size lo over two byte =
    let n : ℕ = buffer 1 - 2 in
    let all =
      overrun-step 24 buffer size n (omega arith) (omega arith) lo (omega arith)
      ∙ parse_loop-end 24 0 buffer size (n + 2) _ (omega arith) in
    (ap (λ r. r.0) all, ap (λ r. r.1) all, omega arith)
