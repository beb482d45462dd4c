-- ===== src/WifiScan/Bytes.antt =====
-- How ParseWifiScan.h reads bytes, bits and numbers. What reads past the end of the bytes has no
-- result: the source does not test the index that it gives to `operator[]`.
use Prim.Native.Nat.{bit_and}
use Prim.Native.String.{String}
use wlan_cloud_ucentralgw.Base.{
  ℕ, zero, suc, ◌+◌, ◌-◌, ◌*◌, ◌/◌, ◌%◌, ◌^◌, Bool, false, not, List, [], ◌∷◌, ◌++◌, Option, none,
  some, length, take, drop, leb, ltb, ◌==◌, if◌then◌else◌,
}
use wlan_cloud_ucentralgw.Base.Table.{Text}
use wlan_cloud_ucentralgw.WifiScan.Json.{Json, number, string}

abbrev pub Bytes : Type 0
Bytes = List ℕ

infixl 5 ◌>>=◌
abbrev pub ◌>>=◌ {ℓ κ} : {A : Type ℓ} {B : Type κ} → Option A → (A → Option B) → Option B
none >>= f = none
some a >>= f = f a

-- `data[i]`.
unfoldable pub byte_at : Bytes → ℕ → Option ℕ
byte_at [] i = none
byte_at (b ∷ d) zero = some b
byte_at (b ∷ d) (suc i) = byte_at d i

-- `size` bytes from `pos` on.
unfoldable pub slice : Bytes → ℕ → ℕ → Option Bytes
slice d pos size = if leb (pos + size) (length d) then some (take size (drop pos d)) else none

unfoldable pub get_uint16 : Bytes → ℕ → Option (ℕ × ℕ)
unfolding byte_at
get_uint16 d offset = do
  b0 ← byte_at d offset
  b1 ← byte_at d (offset + 1)
  some ((b0 + b1 * 256) % 2 ^ 16, offset + 2)

unfoldable pub get_uint32 : Bytes → ℕ → Option (ℕ × ℕ)
unfolding byte_at
get_uint32 d offset = do
  b0 ← byte_at d offset
  b1 ← byte_at d (offset + 1)
  b2 ← byte_at d (offset + 2)
  b3 ← byte_at d (offset + 3)
  some ((b0 + b1 * 256 + b2 * 65536 + b3 * 16777216) % 2 ^ 32, offset + 4)

unfoldable pub get_uint24_big : Bytes → ℕ → Option (ℕ × ℕ)
unfolding byte_at
get_uint24_big d offset = do
  b0 ← byte_at d offset
  b1 ← byte_at d (offset + 1)
  b2 ← byte_at d (offset + 2)
  some ((b2 + b1 * 256 + b0 * 65536) % 2 ^ 32, offset + 3)

unfoldable pub get_uint24 : Bytes → ℕ → Option (ℕ × ℕ)
unfolding byte_at
get_uint24 d offset = do
  b0 ← byte_at d offset
  b1 ← byte_at d (offset + 1)
  b2 ← byte_at d (offset + 2)
  some ((b0 + b1 * 256 + b2 * 65536) % 2 ^ 32, offset + 3)

-- The case of the switch for `bit`, by the masks of its cases; the default is false.
unfoldable pub masked : ℕ → List ℕ → ℕ → Bool
masked c [] bit = false
masked c (mask ∷ masks) zero = not (bit_and c mask == 0)
masked c (mask ∷ masks) (suc bit) = masked c masks bit

-- The overload for an `unsigned char`. The last mask is 0x90, not 0x80.
unfoldable pub bit_set8 : ℕ → ℕ → Bool
unfolding masked
bit_set8 c bit = masked c (0x01 ∷ 0x02 ∷ 0x04 ∷ 0x08 ∷ 0x10 ∷ 0x20 ∷ 0x40 ∷ 0x90 ∷ []) bit

abbrev pub masks16 : List ℕ
masks16 =
    0x0001 ∷ 0x0002 ∷ 0x0004 ∷ 0x0008 ∷ 0x0010 ∷ 0x0020 ∷ 0x0040 ∷ 0x0080 ∷ 0x0100 ∷ 0x0200 ∷ 0x0400
    ∷ 0x0800 ∷ 0x1000 ∷ 0x2000 ∷ 0x4000 ∷ 0x8000 ∷ []

-- The overload for a `uint16_t`.
unfoldable pub bit_set16 : ℕ → ℕ → Bool
unfolding masked
bit_set16 c bit = masked c masks16 bit

-- `(c & mask) >> shift`, as a number of the result.
unfoldable pub field : ℕ → ℕ → ℕ → Json
field c mask shift = number (bit_and c mask / 2 ^ shift)

-- The same for one bit after the other, from `bit` on, under these names.
unfoldable pub fields : ℕ → ℕ → List String → List (String × Json)
unfolding field
fields c bit [] = []
fields c bit (name ∷ names) = (name, field c (2 ^ bit) bit) ∷ fields c (suc bit) names

-- `hex[n]`.
abbrev hex : ℕ → ℕ
hex n = if ltb n 10 then b'0' + n else b'a' + (n - 10)

unfoldable pub hex_loop : ℕ → Bytes → Text → Text
hex_loop separator [] result = result
hex_loop separator (b ∷ bs) [] =
    hex_loop separator bs (hex (bit_and b 0xf0 / 16) ∷ hex (bit_and b 0x0f) ∷ [])
hex_loop separator (b ∷ bs) (r ∷ result) =
    hex_loop separator bs
      ((r ∷ result) ++ (separator ∷ hex (bit_and b 0xf0 / 16) ∷ hex (bit_and b 0x0f) ∷ []))

-- `BufferToHex(&data[pos], size, separator)`; `size` is a 32-bit number.
unfoldable pub buffer_to_hex : Bytes → ℕ → ℕ → ℕ → Option Json
unfolding slice hex_loop
buffer_to_hex d pos size separator = do
  bs ← slice d pos (size % 2 ^ 32)
  some (string (hex_loop separator bs []))

unfoldable pub bit_string_loop : ℕ → ℕ → Text → Text
bit_string_loop zero c r = r
bit_string_loop (suc i) c r =
    bit_string_loop i (c * 2 % 2 ^ 8) (r ++ ((if bit_and c 0x80 == 0 then b'0' else b'1') ∷ []))

unfoldable pub bit_string : ℕ → Json
unfolding bit_string_loop
bit_string c = string (bit_string_loop 8 c [])
