-- ===== src/WifiScan/Json.antt =====
-- `nlohmann::json`, as far as ParseWifiScan.h uses it. Members keep the order in which they were
-- first assigned. `number n` is n, `negative n` is -(n + 1), and `fraction text` is the number with
-- a fraction or an exponent that stands in the input as `text`; the source writes the first only.
use Prim.Native.String.{String}
use text.Mathlib.Text.{◌==◌ as same_key}
use text.Mathlib.TextEquality.{eq_iff}
use wlan_cloud_ucentralgw.Base.{ℕ, Bool, true, false, List, [], ◌∷◌, if◌then◌else◌, ◌≡◌, arith}
use wlan_cloud_ucentralgw.Base.Table.{Text}

mutual
  pub data Json : Type 0 where
    null : Json
    boolean : Bool → Json
    number : ℕ → Json
    negative : ℕ → Json
    fraction : Text → Json
    string : Text → Json
    array : Items → Json
    object : Members → Json

  pub data Items : Type 0 where
    no_item : Items
    item : Json → Items → Items

  pub data Members : Type 0 where
    no_member : Members
    member : String → Json → Members → Members

unfoldable pub items : List Json → Items
items [] = no_item
items (j ∷ js) = item j (items js)

-- `content[key]` that is read; a key that is not there reads as null.
unfoldable pub get : String → Members → Json
get k no_member = null
get k (member key v rest) = let found = get k rest in if same_key key k then v else found

unfoldable pub has : String → Members → Bool
has k no_member = false
has k (member key v rest) = let found = has k rest in if same_key key k then true else found

-- `content[key] = value`.
unfoldable pub put : String → Json → Members → Members
put k v no_member = member k v no_member
put k v (member key w rest) =
    let changed = put k v rest in if same_key key k then member key v rest else member key w changed

-- Several of them, in order.
unfoldable pub assign : List (String × Json) → Members → Members
unfolding put
assign [] ms = ms
assign ((k, v) ∷ rest) ms = assign rest (put k v ms)

abbrev members_of : Json → Members
members_of (object ms) = ms
members_of _ = no_member

-- `content[group][key] = value`, several of them, in order: the first makes an object of null.
-- The source assigns to one group only in this way, so that it never meets another value.
unfoldable pub assign_in : String → List (String × Json) → Members → Members
unfolding put assign get
assign_in g kvs ms = put g (object (assign kvs (members_of (get g ms)))) ms

-- A `json` that was never assigned is null.
unfoldable pub content_of : Members → Json
content_of no_member = null
content_of (member k v rest) = object (member k v rest)

pub get-put : (k : String) (v : Json) (ms : Members) → get k (put k v ms) ≡ v
unfolding get put
get-put k v no_member = ground (arith, eq_iff k k)
get-put k v (member key w rest) = ground (arith, eq_iff key k, get-put k v rest)

pub put-put : (k : String) (v w : Json) (ms : Members) → put k v (put k w ms) ≡ put k v ms
unfolding put
put-put k v w no_member = ground (arith, eq_iff k k)
put-put k v w (member key u rest) = ground (arith, eq_iff key k, put-put k v w rest)
