-- ===== src/WifiScan/Reads.antt =====
-- When the readers of bytes have a result.
use wlan_cloud_ucentralgw.Base.{
  ℕ, zero, suc, ◌+◌, ◌*◌, ◌%◌, ◌^◌, ◌≤◌, ◌<◌, ◌≡◌, refl, Bool, true, false, ◌&&◌, [], ◌∷◌, Option,
  none, some, length, leb, ltb, arith, if◌then◌else◌,
}
use wlan_cloud_ucentralgw.WifiScan.Bytes.{
  Bytes, ◌>>=◌, byte_at, slice, get_uint16, get_uint32, get_uint24_big, buffer_to_hex,
}

abbrev pub is_some {ℓ} : {A : Type ℓ} → Option A → Bool
is_some none = false
is_some (some a) = true

module _ {ℓ κ} {A : Type ℓ} {B : Type κ} where
  pub is_some-bind :
      (o : Option A) (f : A → Option B)
      → is_some o ≡ true
      → ((a : A) → is_some (f a) ≡ true)
      → is_some (o >>= f) ≡ true
  is_some-bind none f h k = absurd (ground arith)
  is_some-bind (some a) f h k = k a

  pub is_some-both :
      (o : Option A) (f : A → Option B) {k : Bool}
      → ((a : A) → is_some (f a) ≡ k)
      → is_some (o >>= f) ≡ is_some o && k
  is_some-both none f h = refl
  is_some-both (some a) f h = h a

  pub is_some-guard :
      (b : Bool) (o : Option A) (c : A) (f : A → Option B)
      → (b ≡ true → is_some o ≡ true)
      → ((a : A) → is_some (f a) ≡ true)
      → is_some ((if b then o else some c) >>= f) ≡ true
  is_some-guard true o c f h k = is_some-bind o f (h refl) k
  is_some-guard false o c f h k = k c

  pub bind-none :
      (o : Option A) (f : A → Option B) → ((a : A) → o ≡ some a → f a ≡ none) → (o >>= f) ≡ none
  bind-none none f k = refl
  bind-none (some a) f k = k a refl

  pub bind-eq-some :
      (o : Option A) (f : A → Option B) {b : B}
      → (o >>= f) ≡ some b
      → (a : A) × (o ≡ some a) × (f a ≡ some b)
  bind-eq-some none f h = absurd (ground arith)
  bind-eq-some (some a) f h = (a, refl, h)

pub some_inj {ℓ} : {A : Type ℓ} {a b : A} → ◌≡◌ {A = Option A} (some a) (some b) → a ≡ b
some_inj h = ground (arith, h)

pub byte_at-outside : (d : Bytes) (i : ℕ) → length d ≤ i → byte_at d i ≡ none
unfolding byte_at
byte_at-outside [] i h = refl
byte_at-outside (b ∷ d) zero h = absurd (omega arith)
byte_at-outside (b ∷ d) (suc i) h = byte_at-outside d i (omega arith)

pub byte_at-is_some : (d : Bytes) (i : ℕ) → is_some (byte_at d i) ≡ ltb i (length d)
unfolding byte_at
byte_at-is_some [] i = ground arith
byte_at-is_some (b ∷ d) zero = ground arith
byte_at-is_some (b ∷ d) (suc i) = ground (arith, byte_at-is_some d i)

pub byte_at-within : (d : Bytes) (i : ℕ) → i < length d → (b : ℕ) × (byte_at d i ≡ some b)
unfolding byte_at
byte_at-within [] i h = absurd (omega arith)
byte_at-within (b ∷ d) zero h = (b, refl)
byte_at-within (b ∷ d) (suc i) h = byte_at-within d i (omega arith)

pub get_uint16-within :
    (d : Bytes) (i : ℕ) → i + 2 ≤ length d → (v : ℕ) × (get_uint16 d i ≡ some (v, i + 2))
unfolding get_uint16
get_uint16-within d i h =
    let (b0, e0) = byte_at-within d i (omega arith) in
    let (b1, e1) = byte_at-within d (i + 1) (omega arith) in ((b0 + b1 * 256) % 2 ^ 16, rw (e0, e1))

pub get_uint24_big-within :
    (d : Bytes) (i : ℕ) → i + 3 ≤ length d → (v : ℕ) × (get_uint24_big d i ≡ some (v, i + 3))
unfolding get_uint24_big
get_uint24_big-within d i h =
    let (b0, e0) = byte_at-within d i (omega arith) in
    let (b1, e1) = byte_at-within d (i + 1) (omega arith) in
    let (b2, e2) = byte_at-within d (i + 2) (omega arith) in
    ((b2 + b1 * 256 + b0 * 65536) % 2 ^ 32, rw (e0, e1, e2))

pub get_uint32-within :
    (d : Bytes) (i : ℕ) → i + 4 ≤ length d → (v : ℕ) × (get_uint32 d i ≡ some (v, i + 4))
unfolding get_uint32
get_uint32-within d i h =
    let (b0, e0) = byte_at-within d i (omega arith) in
    let (b1, e1) = byte_at-within d (i + 1) (omega arith) in
    let (b2, e2) = byte_at-within d (i + 2) (omega arith) in
    let (b3, e3) = byte_at-within d (i + 3) (omega arith) in
    ((b0 + b1 * 256 + b2 * 65536 + b3 * 16777216) % 2 ^ 32, rw (e0, e1, e2, e3))

-- `BufferToHex` has a result just where the bytes are there.
pub buffer_to_hex-is_some :
    (d : Bytes) (pos size separator : ℕ)
    → is_some (buffer_to_hex d pos size separator) ≡ leb (pos + size % 2 ^ 32) (length d)
unfolding buffer_to_hex slice
buffer_to_hex-is_some d pos size separator = ground arith

pub buffer_to_hex-within :
    (d : Bytes) (pos size separator : ℕ)
    → pos + size ≤ length d
    → is_some (buffer_to_hex d pos size separator) ≡ true
buffer_to_hex-within d pos size separator h =
    ground (arith, buffer_to_hex-is_some d pos size separator)

pub get_uint24_big-behind :
    (d : Bytes) (i : ℕ) (read : ℕ × ℕ) → get_uint24_big d i ≡ some read → read.1 ≡ i + 3
unfolding get_uint24_big
get_uint24_big-behind d i read e = ground arith
