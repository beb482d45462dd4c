-- ===== src/WifiScan/Bits.antt =====
-- The masks of one bit: what `&` with a power of two leaves.
use Prim.Native.Nat.{min, bit_and, bit_and-bitwise, digits}
use native.Mathlib.Nat.{div-div-eq-div-mul, zero-div, mul_assoc}
use wlan_cloud_ucentralgw.Base.{
  ℕ, zero, suc, ◌+◌, ◌*◌, ◌/◌, ◌%◌, ◌^◌, ◌≤◌, ◌<◌, ◌≡◌, refl, ap, ◌∙◌, arith, Bool, true, not, ◌&&◌,
  List, [], ◌∷◌, ltb, ◌==◌,
}
use wlan_cloud_ucentralgw.WifiScan.Bytes.{masked, bit_set16}

abbrev common : ℕ → ℕ → ℕ → ℕ
common = digits (λ b. zero) min

common-zero : (steps a : ℕ) → common steps a 0 ≡ 0
common-zero zero a = refl
common-zero (suc steps) zero = refl
common-zero (suc steps) (suc a) = omega (arith, common-zero steps (suc a / 2))

common-one : (steps a : ℕ) → a ≤ steps → common steps a 1 ≡ a % 2
common-one zero zero h = refl
common-one zero (suc a) h = absurd (omega arith)
common-one (suc steps) zero h = refl
common-one (suc steps) (suc a) h = omega (arith, common-zero steps (suc a / 2))

common-double :
    (steps a p : ℕ) → common (suc steps) (suc a) (p * 2) ≡ common steps (suc a / 2) p * 2
common-double steps a p =
    let half : p * 2 / 2 ≡ p = omega arith in
    let even : p * 2 % 2 ≡ 0 = omega arith in
    ap (λ q. common steps (suc a / 2) q * 2 + min (suc a % 2) (p * 2 % 2)) half
    ∙ omega (arith, even)

none_common : (p : ℕ) → 0 ≡ 0 / p % 2 * p
none_common p = rw (zero-div p) (omega arith)

common-power : (k steps a : ℕ) → a ≤ steps → common steps a (2 ^ k) ≡ a / 2 ^ k % 2 * 2 ^ k
common-power zero steps a h = omega (arith, common-one steps a h)
common-power (suc k) zero zero h = none_common (2 ^ suc k)
common-power (suc k) zero (suc a) h = absurd (omega arith)
common-power (suc k) (suc steps) zero h = none_common (2 ^ suc k)
common-power (suc k) (suc steps) (suc a) h =
    let twice : 2 ^ suc k ≡ 2 ^ k * 2 = omega arith in
    let twice' : 2 * 2 ^ k ≡ 2 ^ suc k = omega arith in
    let later = common-power k steps (suc a / 2) (omega arith) in
    let halves = div-div-eq-div-mul (suc a) 2 (2 ^ k) ∙ ap (λ q. suc a / q) twice' in
    ap (common (suc steps) (suc a)) twice
    ∙ common-double steps a (2 ^ k)
    ∙ ap (λ x. x * 2) later
    ∙ mul_assoc (suc a / 2 / 2 ^ k % 2) (2 ^ k) 2
    ∙ rw (halves, twice)

-- What `&` with one bit leaves: the bit, at its place.
pub bit_and-power : (a k : ℕ) → bit_and a (2 ^ k) ≡ a / 2 ^ k % 2 * 2 ^ k
bit_and-power a k = bit_and-bitwise a (2 ^ k) ∙ common-power k a a (omega arith)

two_power_pos : (k : ℕ) → 0 < 2 ^ k
two_power_pos zero = omega arith
two_power_pos (suc k) =
    let twice : 2 ^ suc k ≡ 2 ^ k * 2 = omega arith in omega (arith, twice, two_power_pos k)

bit_nonzero : (r p : ℕ) → r < 2 → 0 < p → not (r * p == 0) ≡ (r == 1)
bit_nonzero zero p h k = ground arith
bit_nonzero (suc zero) p h k = ground arith
bit_nonzero (suc (suc r)) p h k = absurd (omega arith)

-- The masks of `n` bits, from bit `k` on.
powers : ℕ → ℕ → List ℕ
powers k zero = []
powers k (suc n) = 2 ^ k ∷ powers (suc k) n

abbrev is_bit : ℕ → ℕ → Bool
is_bit c k = c / 2 ^ k % 2 == 1

masked-powers : (c n k bit : ℕ) → masked c (powers k n) bit ≡ ltb bit n && is_bit c (k + bit)
unfolding masked powers
masked-powers c zero k bit = ground arith
masked-powers c (suc n) k zero =
    let here : bit_and c (2 ^ k) ≡ c / 2 ^ k % 2 * 2 ^ k = bit_and-power c k in
    let first : ltb 0 (suc n) ≡ true = ground arith in
    let same : k + 0 ≡ k = omega arith in
    rw (here, first, same) (bit_nonzero (c / 2 ^ k % 2) (2 ^ k) (omega arith) (two_power_pos k))
masked-powers c (suc n) k (suc bit) =
    let order : ltb (suc bit) (suc n) ≡ ltb bit n = ground arith in
    let next : k + suc bit ≡ suc k + bit = omega arith in
    rw (order, next) (masked-powers c n (suc k) bit)

-- The test of a bit of a number of 16 bits, whose masks are written out, is the test of the
-- binary digit of that number; beyond the sixteenth it is false.
pub bit_set16-bit : (c bit : ℕ) → bit_set16 c bit ≡ ltb bit 16 && (c / 2 ^ bit % 2 == 1)
unfolding bit_set16 powers
bit_set16-bit c bit =
    let same : 0 + bit ≡ bit = omega arith in
    masked-powers c 16 0 bit ∙ ap (λ n. ltb bit 16 && is_bit c n) same
