-- ===== src/Radius/Tests.antt =====
-- The theorems on the RADIUS packets of RADIUS_helpers.h at concrete inputs.
use wlan_cloud_ucentralgw.Base.{
  ℕ, ◌+◌, ◌-◌, ◌^◌, ◌≤◌, ◌<◌, ◌≡◌, ◌⊎◌, refl, true, none, some, List, [], ◌∷◌, ◌++◌, ◌==◌,
  if◌then◌else◌, arith, All, length,
}
use wlan_cloud_ucentralgw.Radius.Parse.{Buffer, attribute_at, parse_loop, parse_radius}
use wlan_cloud_ucentralgw.Radius.Parse.Bounds.{Within, parse_radius-Within}
use wlan_cloud_ucentralgw.Radius.Parse.Overrun.{parse_radius-overruns}
use wlan_cloud_ucentralgw.Radius.Wire.{Attribute, encode, layout, Holds, parse_radius-encode}
use wlan_cloud_ucentralgw.Radius.Packet.{
  RadiusPacket, blank, reparse, poke, write, append_attribute, bytes_at, first_value, user_name,
}
use wlan_cloud_ucentralgw.Radius.Packet.Append.{Carries, reparse-Carries, append_attribute-Carries}
use wlan_cloud_ucentralgw.Radius.Packet.Remove.{remove_attribute, remove_attribute-cases}

-- The user name "ab" and a called station of one byte.
abbrev two_attributes : List Attribute
two_attributes = (1, 97 ∷ 98 ∷ []) ∷ (30, 99 ∷ []) ∷ []

abbrev two_bytes : Buffer
two_bytes = write (λ i. 0) 0 (1 ∷ 4 ∷ 97 ∷ 98 ∷ 30 ∷ 3 ∷ 99 ∷ [])

two_bytes-Holds : Holds two_bytes 0 (encode two_attributes)
unfolding encode write poke
two_bytes-Holds = (refl, (refl, (refl, (refl, (refl, (refl, (refl, tt)))))))

parse_radius-encode_example :
    parse_radius 0 two_bytes (length (encode two_attributes)) ≡ (true, layout 0 two_attributes)
unfolding encode
parse_radius-encode_example =
    parse_radius-encode two_attributes 0 two_bytes (omega arith) two_bytes-Holds (omega arith)

-- One header, which claims two bytes more than there are.
abbrev greedy : Buffer
greedy i = if i == 0 then 1 else if i == 1 then 6 else 0

greedy-IsByte : (i : ℕ) → greedy i < 256
greedy-IsByte i = ground arith

parse_radius-Within_example :
    All (Within 4) (parse_radius 0 greedy 4).1 × (length (parse_radius 0 greedy 4).1 ≤ 25)
parse_radius-Within_example = parse_radius-Within greedy 4 (omega arith) greedy-IsByte

parse_radius-overruns_example :
    ((parse_radius 0 greedy 4).0 ≡ true)
    × ((parse_radius 0 greedy 4).1 ≡ record { type = 1; pos = 2; len = 4 } ∷ [])
    × (4 < 2 + 4)
parse_radius-overruns_example =
    parse_radius-overruns greedy 4 (omega arith) (omega arith) (omega arith) (omega arith)

-- The second header has the length 1: it is accepted with a length of 2^32 - 1, and what follows it
-- is read one byte further.
abbrev short_header : Buffer
short_header i = if i == 1 then 2 else if i == 3 then 1 else if i == 4 then 2 else 7

short_header_accepted : parse_radius 0 short_header 5 ≡ (
  true,
  record { type = 7; pos = 2; len = 0 }
      ∷ record { type = 7; pos = 4; len = 2 ^ 32 - 1 }
      ∷ record { type = 1; pos = 5; len = 0 }
      ∷ [],
)
unfolding parse_radius parse_loop attribute_at
short_header_accepted = refl

abbrev request : RadiusPacket
request = record blank { attributes = two_bytes; size = 27 }

request-Carries : Carries (reparse request) two_attributes
unfolding encode
request-Carries =
    reparse-Carries request two_attributes refl two_bytes-Holds (omega arith) (omega arith)

append_attribute-Carries_example :
    Carries
      (append_attribute 31 (100 ∷ []) (reparse request))
      (two_attributes ++ ((31, 100 ∷ []) ∷ []))
unfolding encode
append_attribute-Carries_example =
    append_attribute-Carries (reparse request) two_attributes 31 (100 ∷ []) request-Carries
      (omega arith) (omega arith) (omega arith)

request-user_name : user_name (reparse request) ≡ 97 ∷ 98 ∷ []
unfolding user_name first_value bytes_at reparse parse_radius parse_loop attribute_at write poke
request-user_name = refl

remove_attribute-cases_example :
    ((31 ≤ 4096)
      × (q : RadiusPacket) × (remove_attribute 30 (reparse request) ≡ some q)
      × Carries q ((1, 97 ∷ 98 ∷ []) ∷ []))
    ⊎ ((4096 < 31) × (remove_attribute 30 (reparse request) ≡ none))
unfolding encode
remove_attribute-cases_example =
    remove_attribute-cases (reparse request) ((1, 97 ∷ 98 ∷ []) ∷ []) [] 30 (99 ∷ [])
      request-Carries ((λ e. absurd (omega (arith, e))), tt) (omega arith) (omega arith)
