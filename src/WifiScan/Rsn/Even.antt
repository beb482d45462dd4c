-- ===== src/WifiScan/Rsn/Even.antt =====
-- The element of RSN is read in steps of two bytes: one of even length is read within its bytes.
use Prim.Native.String.{String}
use wlan_cloud_ucentralgw.Base.{
  ℕ, zero, suc, ◌+◌, ◌-◌, ◌*◌, ◌%◌, ◌≤◌, ◌≡◌, refl, true, Option, none, some, length, leb, ltb,
  ◌==◌, leb_iff, arith, if_elim,
}
use wlan_cloud_ucentralgw.WifiScan.Bytes.{Bytes, ◌>>=◌}
use wlan_cloud_ucentralgw.WifiScan.Json.{Json, Members}
use wlan_cloud_ucentralgw.WifiScan.Reads.{
  is_some, is_some-bind, byte_at-within, get_uint16-within, get_uint24_big-within,
  buffer_to_hex-within,
}
use wlan_cloud_ucentralgw.WifiScan.Rsn.{
  Suite, suite_type, suite, suites, counted_suites, rsn_capabilities, pmkid_list, pmkids,
  group_management, group_suite, akm_suite, management_suite, rsn_front, rsn_tail, rsn,
}

suite_type-within :
    (k : Suite) (oui : ℕ) (d : Bytes) (offset : ℕ)
    → offset + 1 ≤ length d
    → is_some (suite_type k oui d offset) ≡ true
unfolding suite_type
suite_type-within k oui d offset h =
    let (_, e) = byte_at-within d offset (omega arith) in
    rw e (
      if_elim (λ (r : Option Json). is_some r ≡ true) (oui == k.known) (λ _. refl)
        (λ _. buffer_to_hex-within d offset 1 b' ' h))

pub suite-within :
    (k : Suite) (d : Bytes) (offset : ℕ) → offset + 4 ≤ length d → is_some (suite k d offset) ≡ true
unfolding suite
suite-within k d offset h =
    let (oui, e) = get_uint24_big-within d offset (omega arith) in
    rw e (
      is_some-bind _ _ (buffer_to_hex-within d (offset + 3 - 3) 3 k.separator (omega arith))
        (λ _. is_some-bind _ _ (suite_type-within k oui d (offset + 3) (omega arith)) (λ _. refl)))

pub suites-within :
    (count : ℕ) (k : Suite) (d : Bytes) (offset : ℕ)
    → offset + count * 4 ≤ length d
    → is_some (suites count k d offset) ≡ true
unfolding suites
suites-within zero k d offset h = refl
suites-within (suc count) k d offset h =
    is_some-bind _ _ (suite-within k d offset (omega arith))
      (λ _. is_some-bind _ _ (suites-within count k d (offset + 4) (omega arith)) (λ _. refl))

pmkid_list-within :
    (count : ℕ) (d : Bytes) (offset : ℕ)
    → offset + count * 16 ≤ length d
    → is_some (pmkid_list count d offset) ≡ true
unfolding pmkid_list
pmkid_list-within zero d offset h = refl
pmkid_list-within (suc count) d offset h =
    is_some-bind _ _ (buffer_to_hex-within d offset 16 b' ' (omega arith))
      (λ _. is_some-bind _ _ (pmkid_list-within count d (offset + 16) (omega arith)) (λ _. refl))

-- A step that has a result, and stops at an even offset.
abbrev EndsEven : Option (Members × ℕ) → Type 0
EndsEven r = (content : Members) × (offset : ℕ) × (r ≡ some (content, offset)) × (offset % 2 ≡ 0)

-- The list behind a count: read, or left out.
listed-EndsEven :
    {A : Type 0} (r : Option A) (f : A → Members) (behind : ℕ)
    → is_some r ≡ true
    → behind % 2 ≡ 0
    → EndsEven (r >>= λ list. some (f list, behind))
listed-EndsEven none f behind h even = absurd (ground arith)
listed-EndsEven (some a) f behind h even = (f a, behind, refl, even)

bind-EndsEven :
    (r : Option (Members × ℕ)) (f : Members × ℕ → Option Members)
    → EndsEven r
    → ((content : Members) (offset : ℕ) → offset % 2 ≡ 0 → is_some (f (content, offset)) ≡ true)
    → is_some (r >>= f) ≡ true
bind-EndsEven r f (content, offset, e, even) k = rw e (k content offset even)

counted_suites-EndsEven :
    (k : Suite) (count_key list_key : String) (d : Bytes) (offset : ℕ) (content : Members)
    → length d % 2 ≡ 0
    → offset % 2 ≡ 0
    → EndsEven (counted_suites k count_key list_key d offset content)
unfolding counted_suites
counted_suites-EndsEven k count_key list_key d offset content even at =
    if_elim EndsEven (ltb offset (length d))
      (λ h.
        let (count, e) = get_uint16-within d offset (ground arith) in
        rw e (
          if_elim EndsEven (leb (offset + 2 + count * 4) (length d))
            (λ fit.
              listed-EndsEven _ _ _ (suites-within count k d (offset + 2) ((leb_iff _ _).0 fit))
                (omega arith))
            (λ _. (_, offset + 2, refl, omega arith))))
      (λ _. (content, offset, refl, at))

rsn_capabilities-EndsEven :
    (d : Bytes) (offset : ℕ) (content : Members)
    → offset % 2 ≡ 0
    → EndsEven (rsn_capabilities d offset content)
unfolding rsn_capabilities
rsn_capabilities-EndsEven d offset content at =
    if_elim EndsEven (leb (offset + 2) (length d))
      (λ h.
        let (_, e) = get_uint16-within d offset ((leb_iff _ _).0 h) in
        rw e (_, offset + 2, refl, omega arith))
      (λ _. (content, offset, refl, at))

pmkids-EndsEven :
    (d : Bytes) (offset : ℕ) (content : Members)
    → offset % 2 ≡ 0
    → EndsEven (pmkids d offset content)
unfolding pmkids
pmkids-EndsEven d offset content at =
    if_elim EndsEven (leb (offset + 2) (length d))
      (λ h.
        let (count, e) = get_uint16-within d offset ((leb_iff _ _).0 h) in
        rw e (
          if_elim EndsEven (leb (offset + 2 + count * 16) (length d))
            (λ fit.
              listed-EndsEven _ _ _ (pmkid_list-within count d (offset + 2) ((leb_iff _ _).0 fit))
                (omega arith))
            (λ _. (_, offset + 2, refl, omega arith))))
      (λ _. (content, offset, refl, at))

group_management-is_some :
    (d : Bytes) (offset : ℕ) (content : Members)
    → is_some (group_management d offset content) ≡ true
unfolding group_management
group_management-is_some d offset content =
    if_elim (λ (r : Option Members). is_some r ≡ true) (leb (offset + 4) (length d))
      (λ h.
        is_some-bind _ _ (suite-within management_suite d offset ((leb_iff _ _).0 h)) (λ _. refl))
      (λ _. refl)

rsn_front-is_some : (d : Bytes) → 6 ≤ length d → is_some (rsn_front d) ≡ true
unfolding rsn_front
rsn_front-is_some d h =
    let (_, e) = get_uint16-within d 0 (omega arith) in
    rw e (is_some-bind _ _ (suite-within group_suite d 2 h) (λ _. refl))

rsn_tail-is_some :
    (d : Bytes) (content : Members) → length d % 2 ≡ 0 → is_some (rsn_tail d 6 content) ≡ true
unfolding rsn_tail
rsn_tail-is_some d content even =
    bind-EndsEven _ _ (counted_suites-EndsEven group_suite _ _ d 6 content even refl) (λ c1 o1 p1.
      bind-EndsEven _ _ (counted_suites-EndsEven akm_suite _ _ d o1 c1 even p1) (λ c2 o2 p2.
        bind-EndsEven _ _ (rsn_capabilities-EndsEven d o2 c2 p2) (λ c3 o3 p3.
          bind-EndsEven _ _ (pmkids-EndsEven d o3 c3 p3)
            (λ c4 o4 _. group_management-is_some d o4 c4))))

-- An element of RSN of six bytes or more and of even length is decoded from its own bytes,
-- whatever numbers of suites and of keys it claims.
pub rsn-is_some : (d : Bytes) → 6 ≤ length d → length d % 2 ≡ 0 → is_some (rsn d) ≡ true
unfolding rsn
rsn-is_some d h even =
    is_some-bind _ _ (rsn_front-is_some d h)
      (λ content. is_some-bind _ _ (rsn_tail-is_some d content even) (λ _. refl))
