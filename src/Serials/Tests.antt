-- ===== src/Serials/Tests.antt =====
-- The cache of SerialNumberCache.cpp at concrete serial numbers.
use wlan_cloud_ucentralgw.Base.{ℕ, ◌≡◌, refl, false, not, ◌&&◌, ◌||◌, some, [], ◌∷◌, ◌==◌, arith}
use wlan_cloud_ucentralgw.Base.Table.{Text, same}
use wlan_cloud_ucentralgw.Serials.{
  from_hex, stoull, reverse_onto, reverse_serial_number, reverse_loop, reverse_number, digits_onto,
  int_to_serial_number, contains, lower_bound, insert, SerialNumbers, number_exists, stop,
  add_serial_number, delete_serial_number, result_of, text_of, collect, zeros, return_numbers,
  find_numbers,
}
use wlan_cloud_ucentralgw.Serials.Order.{IsOrdered, add_serial_number_lem, delete_serial_number_lem}

-- 0000000000ab
abbrev serial_ab : Text
serial_ab = 48 ∷ 48 ∷ 48 ∷ 48 ∷ 48 ∷ 48 ∷ 48 ∷ 48 ∷ 48 ∷ 48 ∷ 97 ∷ 98 ∷ []

-- The number 0x10 read backwards is 0x010000000000.
abbrev one_number : SerialNumbers
one_number = record { sns = 0x10 ∷ []; reverse_sns = 0x010000000000 ∷ [] }

one_number-IsOrdered : IsOrdered one_number
one_number-IsOrdered = record { rising = (omega arith, tt); sorted = (omega arith, tt) }

stoull-ab : stoull serial_ab ≡ some 0xab
unfolding stoull from_hex
stoull-ab = refl

reverse_number-ab : reverse_number 0xab ≡ 0xba0000000000
unfolding reverse_number reverse_loop
reverse_number-ab = refl

int_to_serial_number-ab : int_to_serial_number 0xab ≡ serial_ab
unfolding int_to_serial_number digits_onto
int_to_serial_number-ab = refl

add_serial_number_lem_example :
    let d = add_serial_number serial_ab one_number in
    IsOrdered d × ((m : ℕ) → number_exists m d ≡ (0xab == m || number_exists m one_number))
add_serial_number_lem_example =
    add_serial_number_lem serial_ab 0xab one_number one_number-IsOrdered stoull-ab

delete_serial_number_lem_example :
    let d = delete_serial_number serial_ab one_number in
    IsOrdered d × ((m : ℕ) → number_exists m d ≡ (not (0xab == m) && number_exists m one_number))
delete_serial_number_lem_example =
    delete_serial_number_lem serial_ab 0xab one_number one_number-IsOrdered stoull-ab

-- The suffix b finds the number ab.
find_numbers-suffix :
    find_numbers (42 ∷ 98 ∷ []) 10 (add_serial_number serial_ab one_number) ≡ 0xab ∷ []
unfolding find_numbers reverse_serial_number reverse_onto return_numbers stoull from_hex zeros
    collect lower_bound text_of result_of reverse_number reverse_loop int_to_serial_number
    digits_onto add_serial_number insert contains same
find_numbers-suffix = refl

stop-number_exists : number_exists 0x10 (stop one_number) ≡ false
unfolding stop number_exists contains
stop-number_exists = refl
