-- ===== src/Radius/Parse/Bounds.antt =====
-- Where the attributes that `ParseRadius` of RADIUS_helpers.h accepts may lie.
use wlan_cloud_ucentralgw.Base.{
  ℕ, zero, suc, ◌+◌, ◌-◌, ◌%◌, ◌^◌, ◌≤◌, ◌<◌, ◌⊎◌, inl, inr, [], ◌∷◌, ◌++◌, ltb, leb, ◌==◌, arith,
  All, All-append, length, length-append, Bool-cases,
}
use wlan_cloud_ucentralgw.Radius.Parse.{
  Buffer, RadiusAttribute, AttributeList, attribute_at, parse_loop, parse_radius,
}

-- The value ends at most two bytes beyond the buffer, or its length has wrapped.
abbrev pub Within : ℕ → RadiusAttribute → Type 0
Within size a = (a.pos + a.len ≤ size + 2) ⊎ (2 ^ 32 - 2 ≤ a.len)

attribute_at-Within :
    (buffer : Buffer) (size pos : ℕ)
    → pos < size
    → size + 2 < 2 ^ 16
    → buffer (pos + 1) < 256
    → (pos + (attribute_at 0 buffer pos).len) % 2 ^ 32 ≤ size
    → Within size (attribute_at 0 buffer pos)
unfolding attribute_at
attribute_at-Within buffer size pos lt small byte fits =
    elim (Bool-cases (ltb (buffer (pos + 1)) 2)) [
      | inl e ↦ inr (ground arith)
      | inr e ↦ inl (ground arith)
    ]

parse_loop-Within :
    (x : ℕ) (buffer : Buffer) (size pos : ℕ) (attrs : AttributeList)
    → size + 2 < 2 ^ 16
    → ((i : ℕ) → buffer i < 256)
    → All (Within size) attrs
    → let r = parse_loop x 0 buffer size pos attrs in
      All (Within size) r.1 × (length r.1 ≤ length attrs + x)
unfolding parse_loop
parse_loop-Within zero buffer size pos attrs small byte h = (h, omega arith)
parse_loop-Within (suc x) buffer size pos attrs small byte h =
    let attr = attribute_at 0 buffer pos in
    let n = length-append attrs (attr ∷ []) in
    elim (Bool-cases (ltb pos size)) [
      | inr e ↦ rw e (h, omega arith)
      | inl e ↦ elim (Bool-cases (leb ((pos + attr.len) % 2 ^ 32) size)) [
        | inr f ↦ rw (e, f) (h, omega arith)
        | inl f ↦
            let lt : pos < size = ground arith in
            let le : (pos + attr.len) % 2 ^ 32 ≤ size = ground arith in
            let here = attribute_at-Within buffer size pos lt small (byte (pos + 1)) le in
            let more = All-append (Within size) attrs (attr ∷ []) h (here, tt) in
            elim (Bool-cases (buffer (pos + 1) == 0)) [
              | inl g ↦ rw (e, f, g) (more, omega (arith, n))
              | inr g ↦
                  let (w, l) =
                    parse_loop-Within x buffer size ((pos + buffer (pos + 1)) % 2 ^ 16)
                      (attrs ++ (attr ∷ [])) small byte more in
                  rw (e, f, g) (w, omega (arith, n, l))
            ]
      ]
    ]

-- At most 25 attributes are read, and each value ends at most two bytes beyond the buffer, or has a
-- length of at least 2^32 - 2.
pub parse_radius-Within :
    (buffer : Buffer) (size : ℕ)
    → size + 2 < 2 ^ 16
    → ((i : ℕ) → buffer i < 256)
    → let r = parse_radius 0 buffer size in All (Within size) r.1 × (length r.1 ≤ 25)
unfolding parse_radius
parse_radius-Within buffer size small byte = parse_loop-Within 25 buffer size 0 [] small byte tt
