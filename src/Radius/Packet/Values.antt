-- ===== src/Radius/Packet/Values.antt =====
-- The functions of RADIUS_helpers.h that find an attribute, against the attributes that a packet
-- carries.
use mathlib.Core.Path.{subst}
use wlan_cloud_ucentralgw.Base.{
  ℕ, suc, ◌+◌, ◌≡◌, refl, ap, ◌∙◌, Bool, true, false, ◌&&◌, ◌||◌, List, [], ◌∷◌, ltb, ◌==◌,
  if◌then◌else◌, arith, length, any,
}
use wlan_cloud_ucentralgw.Radius.Parse.{Buffer, RadiusAttribute}
use wlan_cloud_ucentralgw.Radius.Wire.{Attribute, encode, layout, Holds, Holds-append}
use wlan_cloud_ucentralgw.Radius.Packet.{
  RadiusPacket, has_attribute, bytes_at, first_value, user_name, extract_called_station_id,
  extract_calling_station_id, extract_accounting_session_id, extract_accounting_multi_session_id,
}
use wlan_cloud_ucentralgw.Radius.Packet.Append.{Carries}

-- The value of the first attribute of the type, or of the first that is not empty.
unfoldable pub value_of : Bool → ℕ → List Attribute → List ℕ
value_of or_empty type [] = []
value_of or_empty type ((t, v) ∷ ws) =
    let rest = value_of or_empty type ws in
    if t == type && (or_empty || ltb 0 (length v)) then v else rest

pub bytes_at-Holds :
    (buffer : Buffer) (i : ℕ) (bs : List ℕ) → Holds buffer i bs → bytes_at buffer i (length bs) ≡ bs
unfolding bytes_at
bytes_at-Holds buffer i [] h = refl
bytes_at-Holds buffer i (b ∷ bs) (hb, h) = rw (hb, bytes_at-Holds buffer (suc i) bs h) refl

first_value-layout :
    (or_empty : Bool) (type : ℕ) (buffer : Buffer) (pos : ℕ) (ws : List Attribute)
    → Holds buffer pos (encode ws)
    → first_value or_empty type buffer (layout pos ws) ≡ value_of or_empty type ws
unfolding first_value value_of layout encode
first_value-layout or_empty type buffer pos [] h = refl
first_value-layout or_empty type buffer pos ((t, v) ∷ ws) (ht, (hn, hv)) =
    let (here, behind) = Holds-append buffer (suc (suc pos)) v (encode ws) hv in
    let next : suc (suc pos) + length v ≡ pos + (2 + length v) = omega arith in
    let start : suc (suc pos) ≡ pos + 2 = omega arith in
    let rest =
      first_value-layout or_empty type buffer (pos + (2 + length v)) ws
        (subst (λ k. Holds buffer k (encode ws)) next behind) in
    let value = bytes_at-Holds buffer (pos + 2) v (subst (λ k. Holds buffer k v) start here) in
    rw (rest, value) refl

any-layout :
    (type pos : ℕ) (ws : List Attribute)
    → any (λ (a : RadiusAttribute). a.type == type) (layout pos ws)
      ≡ any (λ (w : Attribute). w.0 == type) ws
unfolding layout
any-layout type pos [] = refl
any-layout type pos ((t, v) ∷ ws) =
    ap (λ b. elim (t == type) [ true ↦ true | false ↦ b ])
      (any-layout type (pos + (2 + length v)) ws)

carried_value :
    (or_empty : Bool) (type : ℕ) (p : RadiusPacket) (ws : List Attribute)
    → Carries p ws
    → first_value or_empty type p.attributes p.attrs ≡ value_of or_empty type ws
carried_value or_empty type p ws c =
    ap (first_value or_empty type p.attributes) c.read
    ∙ first_value-layout or_empty type p.attributes 0 ws c.holds

-- On a packet that carries some attributes, an attribute is found when there is one of its type;
-- the user name is the value of the first attribute of its type, and the station and session ids
-- are the values of the first attribute of their type that is not empty, or are empty.
pub values-Carries :
    (p : RadiusPacket) (ws : List Attribute)
    → Carries p ws
    → ((type : ℕ) → has_attribute type p ≡ any (λ (w : Attribute). w.0 == type) ws)
      × ((user_name p ≡ value_of true 1 ws)
          × ((extract_called_station_id p ≡ value_of false 30 ws)
              × ((extract_calling_station_id p ≡ value_of false 31 ws)
                  × ((extract_accounting_session_id p ≡ value_of false 44 ws)
                      × (extract_accounting_multi_session_id p ≡ value_of false 50 ws)))))
unfolding has_attribute user_name extract_called_station_id extract_calling_station_id
    extract_accounting_session_id extract_accounting_multi_session_id
values-Carries p ws c = (
  λ type. ap (any (λ (a : RadiusAttribute). a.type == type)) c.read ∙ any-layout type 0 ws,
  (
    carried_value true 1 p ws c,
    (
      carried_value false 30 p ws c,
      (
        carried_value false 31 p ws c,
        (carried_value false 44 p ws c, carried_value false 50 p ws c),
      ),
    ),
  ),
)
