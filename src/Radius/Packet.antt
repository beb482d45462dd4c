-- ===== src/Radius/Packet.antt =====
-- `RADIUS::RadiusPacket` of RADIUS_helpers.h: its bytes, its attributes, and the functions that add
-- and find attributes. The attribute array is a function from offsets to bytes; sizes have 16 bits.
pub mod Append
pub mod Values
pub mod Remove
use wlan_cloud_ucentralgw.Base.{
  ℕ, zero, suc, ◌+◌, ◌-◌, ◌/◌, ◌%◌, ◌^◌, ◌≡◌, Bool, true, false, ◌&&◌, ◌||◌, Option, none, some,
  List, [], ◌∷◌, ◌++◌, ltb, leb, ◌==◌, if◌then◌else◌, length, take, any,
}
use wlan_cloud_ucentralgw.Radius.Parse.{Buffer, RadiusAttribute, AttributeList, parse_radius}

pub record RadiusPacket : Type 0 where
  pub code : ℕ
  pub identifier : ℕ
  pub rawlen : ℕ
  pub attributes : Buffer
  pub attrs : AttributeList
  pub size : ℕ
  pub valid : Bool

abbrev pub attribute_offset : ℕ
attribute_offset = 20

-- `sizeof(RawRadiusPacket)`
abbrev pub raw_size : ℕ
raw_size = 4116

-- `Size_ - 20` as the 16-bit argument of `ParseRadius`.
abbrev pub body_size : ℕ → ℕ
body_size size = (size + 2 ^ 16 - 20) % 2 ^ 16

-- A packet before anything is copied into it.
abbrev pub blank : RadiusPacket
blank = record {
  code = 1;
  identifier = 0;
  rawlen = 0;
  attributes = λ i. 0;
  attrs = [];
  size = 0;
  valid = false;
}

-- The constructor from a buffer of `size` bytes: `raw` is what `memcpy` makes of the blank packet.
-- A packet that does not fit is not copied, and its own length must be the buffer's.
unfoldable pub from_buffer : RadiusPacket → ℕ → RadiusPacket
from_buffer raw size =
    let (ok, attrs) = parse_radius 0 raw.attributes (body_size size) in
    if leb raw_size size
    then blank
    else if size == raw.rawlen
    then record raw { size = size; valid = ok; attrs = attrs }
    else record raw { size = size; valid = false; attrs = [] }

unfoldable pub reparse : RadiusPacket → RadiusPacket
reparse p =
    let r = parse_radius 0 p.attributes (body_size p.size) in
    record p { rawlen = p.size; valid = r.0; attrs = r.1 }

unfoldable pub poke : Buffer → ℕ → ℕ → Buffer
poke buffer i b j = if i == j then b else buffer j

-- `memcpy(&attributes[i], bytes, length(bytes))`
unfoldable pub write : Buffer → ℕ → List ℕ → Buffer
write buffer i [] = buffer
write buffer i (b ∷ bs) = write (poke buffer i b) (suc i) bs

-- `AppendAttribute` on a value of bytes. Its length is taken as a byte, and so is the length with
-- the header.
unfoldable pub append_attribute : ℕ → List ℕ → RadiusPacket → RadiusPacket
append_attribute type value p =
    let size = if ltb p.size attribute_offset then attribute_offset else p.size in
    let n = length value % 2 ^ 8 in
    reparse (record p {
      attributes =
          write p.attributes (size - attribute_offset) (type ∷ ((n + 2) % 2 ^ 8) ∷ take n value);
      size = (size + (2 + n)) % 2 ^ 16;
    })

-- The overloads for numbers of 8, 16 and 32 bits, most significant byte first.
unfoldable pub append_u8 : ℕ → ℕ → RadiusPacket → RadiusPacket
append_u8 type value = append_attribute type (value ∷ [])

unfoldable pub append_u16 : ℕ → ℕ → RadiusPacket → RadiusPacket
append_u16 type value = append_attribute type (value / 2 ^ 8 % 2 ^ 8 ∷ value % 2 ^ 8 ∷ [])

-- The four bytes of a `std::uint32_t`.
unfoldable pub big_endian_32 : ℕ → List ℕ
big_endian_32 value =
    value / 2 ^ 24 % 2 ^ 8 ∷ value / 2 ^ 16 % 2 ^ 8 ∷ value / 2 ^ 8 % 2 ^ 8 ∷ value % 2 ^ 8 ∷ []

unfoldable pub append_u32 : ℕ → ℕ → RadiusPacket → RadiusPacket
append_u32 type value = append_attribute type (big_endian_32 value)

unfoldable pub has_attribute : ℕ → RadiusPacket → Bool
has_attribute type p = any (λ a. a.type == type) p.attrs

unfoldable pub bytes_at : Buffer → ℕ → ℕ → List ℕ
bytes_at buffer i zero = []
bytes_at buffer i (suc n) = buffer i ∷ bytes_at buffer (suc i) n

-- `UserName`, and with `or_empty` false the `Extract…` functions: the value of the first attribute
-- of the type, with `or_empty` false of the first that is not empty.
unfoldable pub first_value : Bool → ℕ → Buffer → AttributeList → List ℕ
first_value or_empty type buffer [] = []
first_value or_empty type buffer (a ∷ attrs) =
    let rest = first_value or_empty type buffer attrs in
    if a.type == type && (or_empty || ltb 0 a.len) then bytes_at buffer a.pos a.len else rest

unfoldable pub user_name : RadiusPacket → List ℕ
user_name p = first_value true 1 p.attributes p.attrs

unfoldable pub extract_called_station_id : RadiusPacket → List ℕ
extract_called_station_id p = first_value false 30 p.attributes p.attrs

unfoldable pub extract_calling_station_id : RadiusPacket → List ℕ
extract_calling_station_id p = first_value false 31 p.attributes p.attrs

unfoldable pub extract_accounting_session_id : RadiusPacket → List ℕ
extract_accounting_session_id p = first_value false 44 p.attributes p.attrs

unfoldable pub extract_accounting_multi_session_id : RadiusPacket → List ℕ
extract_accounting_multi_session_id p = first_value false 50 p.attributes p.attrs

-- `ReplaceAttribute` of four bytes writes them over the value of the first attribute of the type,
-- whatever its length.
unfoldable pub replace_first : ℕ → List ℕ → AttributeList → Buffer → Buffer
replace_first type bytes [] buffer = buffer
replace_first type bytes (a ∷ attrs) buffer =
    let rest = replace_first type bytes attrs buffer in
    if a.type == type then write buffer a.pos bytes else rest

unfoldable pub replace_u32 : ℕ → ℕ → RadiusPacket → RadiusPacket
replace_u32 type value p = record p {
  attributes = replace_first type (big_endian_32 value) p.attrs p.attributes;
}

unfoldable pub replace_or_add_u32 : ℕ → ℕ → RadiusPacket → RadiusPacket
replace_or_add_u32 type value p =
    if has_attribute type p then replace_u32 type value p else append_u32 type value p
