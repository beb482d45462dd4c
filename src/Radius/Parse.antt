-- ===== src/Radius/Parse.antt =====
-- `RADIUS::ParseRadius` of RADIUS_helpers.h. A buffer is a function from offsets to bytes, since
-- the code may read a byte past the size that it is given; `pos` has 16 bits and `len` has 32.
pub mod Bounds
pub mod Overrun
use wlan_cloud_ucentralgw.Base.{
  ℕ, zero, suc, ◌+◌, ◌-◌, ◌%◌, ◌^◌, Bool, true, false, List, [], ◌∷◌, ◌++◌, ltb, leb, ◌==◌,
  if◌then◌else◌,
}

abbrev pub Buffer : Type 0
Buffer = ℕ → ℕ

pub record RadiusAttribute : Type 0 where
  pub type : ℕ
  pub pos : ℕ
  pub len : ℕ

abbrev pub AttributeList : Type 0
AttributeList = List RadiusAttribute

-- The attribute whose header stands at `pos`. `Buffer[pos + 1] - 2` wraps as an unsigned int.
unfoldable pub attribute_at : ℕ → Buffer → ℕ → RadiusAttribute
attribute_at offset buffer pos = record {
  type = buffer pos;
  pos = (pos + 2 + offset) % 2 ^ 16;
  len = (buffer (pos + 1) + 2 ^ 32 - 2) % 2 ^ 32;
}

-- `while (pos < Size && x)`, on the rounds `x` that are left.
unfoldable pub parse_loop : ℕ → ℕ → Buffer → ℕ → ℕ → AttributeList → Bool × AttributeList
parse_loop zero offset buffer size pos attrs = (true, attrs)
parse_loop (suc x) offset buffer size pos attrs =
    let attr = attribute_at offset buffer pos in
    let l = buffer (pos + 1) in
    let rest = parse_loop x offset buffer size ((pos + l) % 2 ^ 16) (attrs ++ (attr ∷ [])) in
    if ltb pos size
    then if leb ((pos + attr.len) % 2 ^ 32) size
      then if l == 0 then (false, attrs ++ (attr ∷ [])) else rest
      else (false, attrs)
    else (true, attrs)

unfoldable pub parse_radius : ℕ → Buffer → ℕ → Bool × AttributeList
parse_radius offset buffer size = parse_loop 25 offset buffer size 0 []
