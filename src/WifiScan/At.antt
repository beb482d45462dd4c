-- ===== src/WifiScan/At.antt =====
-- What the readers find at a place of the bytes of which it is known what stands there.
use wlan_cloud_ucentralgw.Base.{
  ℕ, ◌+◌, ◌*◌, ◌%◌, ◌^◌, ◌<◌, ◌≡◌, refl, sym, ap, ◌∙◌, [], ◌∷◌, ◌++◌, some, length, length-append,
  take, drop, arith,
}
use mathlib.Core.List.{append_assoc}
use wlan_cloud_ucentralgw.WifiScan.Bytes.{
  Bytes, byte_at, slice, get_uint16, get_uint24_big, buffer_to_hex, hex_loop,
}
use wlan_cloud_ucentralgw.WifiScan.Json.{string}

-- `back` is what `d` holds from `offset` on.
pub record At (d : Bytes) (offset : ℕ) (back : Bytes) : Type 0 where
  pub front : Bytes
  pub parts : d ≡ front ++ back
  pub place : length front ≡ offset

pub At-start : (d : Bytes) → At d 0 d
At-start d = record { front = []; parts = refl; place = refl }

pub At-step :
    {d : Bytes} {offset : ℕ} (piece : Bytes) {back : Bytes}
    → At d offset (piece ++ back)
    → At d (offset + length piece) back
At-step piece {back} at = record {
  front = at.front ++ piece;
  parts = at.parts ∙ sym (append_assoc at.front piece back);
  place = omega (arith, length-append at.front piece, at.place);
}

pub At-fits :
    {d : Bytes} {offset : ℕ} {back : Bytes} → At d offset back → offset + length back ≡ length d
At-fits {d} {offset} {back} at =
    sym (ap length at.parts ∙ length-append at.front back ∙ ap (λ n. n + length back) at.place)

byte_at-append :
    (front : Bytes) (b : ℕ) (back : Bytes) → byte_at (front ++ b ∷ back) (length front) ≡ some b
unfolding byte_at
byte_at-append [] b back = refl
byte_at-append (f ∷ front) b back = byte_at-append front b back

pub byte_at-At :
    {d : Bytes} {offset b : ℕ} {back : Bytes} → At d offset (b ∷ back) → byte_at d offset ≡ some b
byte_at-At {b} {back} at = rw (at.parts, ← at.place) (byte_at-append at.front b back)

pub get_uint16-At :
    {d : Bytes} {offset b0 b1 : ℕ} {back : Bytes}
    → At d offset (b0 ∷ b1 ∷ back)
    → get_uint16 d offset ≡ some ((b0 + b1 * 256) % 2 ^ 16, offset + 2)
unfolding get_uint16
get_uint16-At {b0} at = rw (byte_at-At at, byte_at-At (At-step (b0 ∷ []) at))

pub get_uint24_big-At :
    {d : Bytes} {offset b0 b1 b2 : ℕ} {back : Bytes}
    → At d offset (b0 ∷ b1 ∷ b2 ∷ back)
    → get_uint24_big d offset ≡ some ((b2 + b1 * 256 + b0 * 65536) % 2 ^ 32, offset + 3)
unfolding get_uint24_big
get_uint24_big-At {b0} {b1} at =
    rw (byte_at-At at, byte_at-At (At-step (b0 ∷ []) at), byte_at-At (At-step (b0 ∷ b1 ∷ []) at))

take-append : (piece back : Bytes) → take (length piece) (piece ++ back) ≡ piece
take-append [] back = refl
take-append (b ∷ piece) back = ap (◌∷◌ b) (take-append piece back)

drop-append : (front back : Bytes) → drop (length front) (front ++ back) ≡ back
drop-append [] back = refl
drop-append (b ∷ front) back = drop-append front back

pub slice-At :
    {d : Bytes} {offset : ℕ} (piece back : Bytes)
    → At d offset (piece ++ back)
    → slice d offset (length piece) ≡ some piece
unfolding slice
slice-At {d} {offset} piece back at =
    let shape : drop offset d ≡ piece ++ back =
      rw (at.parts, ← at.place) (drop-append at.front _) in
    let found : take (length piece) (drop offset d) ≡ piece = rw shape (take-append piece back) in
    ground (arith, found, At-fits at, length-append piece back)

pub buffer_to_hex-At :
    {d : Bytes} {offset : ℕ} (piece : Bytes) (separator : ℕ) (back : Bytes)
    → At d offset (piece ++ back)
    → length piece < 2 ^ 32
    → buffer_to_hex d offset (length piece) separator ≡ some (string (hex_loop separator piece []))
unfolding buffer_to_hex
buffer_to_hex-At piece separator back at h =
    let e : length piece % 2 ^ 32 ≡ length piece = omega arith in rw (e, slice-At piece back at)
