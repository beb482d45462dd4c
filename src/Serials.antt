-- ===== src/Serials.antt =====
-- The cache of serial numbers, SerialNumberCache.h and SerialNumberCache.cpp, with `Reverse` and
-- `IntToSerialNumber` of framework/utils.cpp: two sorted arrays, of the numbers and of the numbers
-- read backwards, in which a prefix or a suffix is looked up.
-- `std::stoull` is modelled on texts that begin with neither blanks, nor a sign, nor 0x; where it
-- throws, the operation ends there. `std::lower_bound` on a sorted array is its first element that
-- is not less.
pub mod Order
pub mod Prefix
mod Tests
use wlan_cloud_ucentralgw.Base.{
  ℕ, zero, suc, ◌+◌, ◌-◌, ◌*◌, ◌/◌, ◌%◌, ◌^◌, Bool, true, false, ◌&&◌, ◌||◌, Option, none, some,
  List, [], ◌∷◌, ◌++◌, ltb, leb, ◌==◌, if◌then◌else◌, length, take,
}
use wlan_cloud_ucentralgw.Base.Table.{Text, same}

abbrev pub hex_value : ℕ → Option ℕ
hex_value c =
    if leb 48 c && leb c 57
    then some (c - 48)
    else if leb 97 c && leb c 102
    then some (c - 87)
    else if leb 65 c && leb c 70
    then some (c - 55)
    else none

-- The digits up to the first character that is none.
unfoldable pub from_hex : Text → ℕ → ℕ
from_hex [] v = v
from_hex (c ∷ s) v = elim (hex_value c) [ none ↦ v | some d ↦ from_hex s (v * 16 + d) ]

-- `std::stoull(s, nullptr, 16)`: it throws on a text without digits, and above 64 bits.
unfoldable pub stoull : Text → Option ℕ
stoull [] = none
stoull (c ∷ s) = elim (hex_value c) [
  | none ↦ none
  | some d ↦ if ltb (from_hex (c ∷ s) 0) (2 ^ 64) then some (from_hex (c ∷ s) 0) else none
]

unfoldable pub reverse_onto : Text → Text → Text
reverse_onto [] r = r
reverse_onto (c ∷ s) r = reverse_onto s (c ∷ r)

pub reverse_serial_number : Text → Text
unfolding reverse_onto
reverse_serial_number s = reverse_onto s []

-- The loop of `Reverse`, on the rounds left, and its last shift.
unfoldable pub reverse_loop : ℕ → ℕ → ℕ → ℕ
reverse_loop zero n res = res
reverse_loop (suc i) n res =
    reverse_loop i (n / 2 ^ 4) ((res * 2 ^ 4 % 2 ^ 64 + n % 2 ^ 4) % 2 ^ 64)

unfoldable pub reverse_number : ℕ → ℕ
reverse_number n = reverse_loop 16 n 0 / 2 ^ 16

-- `IntToSerialNumber`: the last twelve hexadecimal digits.
unfoldable pub digits_onto : ℕ → ℕ → Text → Text
digits_onto zero s b = b
digits_onto (suc i) s b =
    let d = s % 2 ^ 4 in digits_onto i (s / 2 ^ 4) ((if ltb d 10 then d + 48 else d - 10 + 97) ∷ b)

unfoldable pub int_to_serial_number : ℕ → Text
int_to_serial_number s = digits_onto 12 s []

-- `std::find(…) != end`
unfoldable pub contains : ℕ → List ℕ → Bool
contains n [] = false
contains n (x ∷ xs) = x == n || contains n xs

unfoldable pub lower_bound : ℕ → List ℕ → List ℕ
lower_bound n [] = []
lower_bound n (x ∷ xs) = let rest = lower_bound n xs in if ltb x n then rest else x ∷ xs

-- `insert(lower_bound(n), n)`
unfoldable pub insert : ℕ → List ℕ → List ℕ
insert n [] = n ∷ []
insert n (x ∷ xs) = let rest = insert n xs in if ltb x n then x ∷ rest else n ∷ x ∷ xs

-- `erase(find(n))`
unfoldable pub remove : ℕ → List ℕ → List ℕ
remove n [] = []
remove n (x ∷ xs) = let rest = remove n xs in if x == n then xs else x ∷ rest

pub record SerialNumbers : Type 0 where
  pub sns : List ℕ
  pub reverse_sns : List ℕ

-- `Stop` empties both arrays.
unfoldable pub stop : SerialNumbers → SerialNumbers
stop c = record { sns = []; reverse_sns = [] }

unfoldable pub number_exists : ℕ → SerialNumbers → Bool
number_exists n c = contains n c.sns

unfoldable pub add_serial_number : Text → SerialNumbers → SerialNumbers
add_serial_number s c = elim (stoull s) [
  | none ↦ c
  | some sn ↦ if contains sn c.sns then c else elim (stoull (reverse_serial_number s)) [
    | none ↦ record c { sns = insert sn c.sns }
    | some rsn ↦ record c { sns = insert sn c.sns; reverse_sns = insert rsn c.reverse_sns }
  ]
]

unfoldable pub delete_serial_number : Text → SerialNumbers → SerialNumbers
delete_serial_number s c = elim (stoull s) [
  | none ↦ c
  | some sn ↦
      if contains sn c.sns
      then elim (stoull (reverse_serial_number s)) [
        | none ↦ record c { sns = remove sn c.sns }
        | some rsn ↦ record c { sns = remove sn c.sns; reverse_sns = remove rsn c.reverse_sns }
      ]
      else c
]

-- What a stored number is shown as, and the text in which the prefix is looked for.
unfoldable pub result_of : Bool → ℕ → ℕ
result_of reversed x = if reversed then reverse_number x else x

unfoldable pub text_of : Bool → ℕ → Text
text_of reversed x =
    if reversed
    then reverse_serial_number (int_to_serial_number (reverse_number x))
    else int_to_serial_number x

abbrev pub begins_with : Text → Text → Bool
begins_with s t = same s (take (length s) t)

-- The loop from the lower bound on, which ends with the first number of another prefix.
unfoldable pub collect : Bool → Text → ℕ → List ℕ → List ℕ
collect reversed s zero xs = []
collect reversed s (suc how_many) [] = []
collect reversed s (suc how_many) (x ∷ xs) =
    let rest = collect reversed s how_many xs in
    if begins_with s (text_of reversed x) then result_of reversed x ∷ rest else []

unfoldable pub zeros : ℕ → Text
zeros zero = []
zeros (suc n) = 48 ∷ zeros n

unfoldable pub return_numbers : Bool → Text → ℕ → List ℕ → List ℕ
return_numbers reversed s how_many xs =
    if length s == 12
    then elim (stoull s) [
      | none ↦ []
      | some sn ↦ if contains sn xs then result_of reversed sn ∷ [] else []
    ]
    else if ltb (length s) 12
    then elim (stoull (s ++ zeros (12 - length s))) [
      | none ↦ []
      | some sn ↦ collect reversed s how_many (lower_bound sn xs)
    ]
    else []

-- A text that begins with a star looks for the end of the serial number.
unfoldable pub find_numbers : Text → ℕ → SerialNumbers → List ℕ
find_numbers [] how_many c = []
find_numbers (x ∷ s) how_many c =
    if x == 42
    then elim (reverse_serial_number s) [
      | [] ↦ []
      | y ∷ r ↦ return_numbers true (y ∷ r) how_many c.reverse_sns
    ]
    else return_numbers false (x ∷ s) how_many c.sns
