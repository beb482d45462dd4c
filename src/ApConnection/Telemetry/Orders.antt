-- ===== src/ApConnection/Telemetry/Orders.antt =====
-- What a device has heard of the orders about telemetry, some of which `Send` does not get through.
use wlan_cloud_ucentralgw.Base.{
  ℕ, ◌≡◌, refl, ap, ◌∙◌, Bool, true, false, ◌⊎◌, inl, inr, Bool-cases, if◌then◌else◌, List, [], ◌∷◌,
  ◌++◌,
}
use wlan_cloud_ucentralgw.Base.Table.{Text}
use wlan_cloud_ucentralgw.ApConnection.Telemetry.{Sending, Order, start, stop}

-- Whether the last of these orders is to start.
unfoldable pub is_started : List Order → Bool
is_started [] = false
is_started (start rpc interval types ∷ []) = true
is_started (stop rpc ∷ []) = false
is_started (o ∷ p ∷ orders) = is_started (p ∷ orders)

pub is_started-start :
    (orders : List Order) (rpc : Sending) (interval : ℕ) (types : List Text)
    → is_started (orders ++ (start rpc interval types ∷ [])) ≡ true
unfolding is_started
is_started-start [] rpc interval types = refl
is_started-start (o ∷ []) rpc interval types = refl
is_started-start (o ∷ p ∷ orders) rpc interval types =
    is_started-start (p ∷ orders) rpc interval types

pub is_started-stop :
    (orders : List Order) (rpc : Sending) → is_started (orders ++ (stop rpc ∷ [])) ≡ false
unfolding is_started
is_started-stop [] rpc = refl
is_started-stop (o ∷ []) rpc = refl
is_started-stop (o ∷ p ∷ orders) rpc = is_started-stop (p ∷ orders) rpc

-- Whether an order got through.
abbrev pub got : Order → Bool
got (start rpc interval types) = rpc.is_sent
got (stop rpc) = rpc.is_sent

-- The orders that the device got.
unfoldable pub received : List Order → List Order
received [] = []
received (o ∷ orders) = let rest = received orders in if got o then o ∷ rest else rest

-- Whether the last order got through, if there is one.
unfoldable pub is_last_sent : List Order → Bool
is_last_sent [] = true
is_last_sent (o ∷ []) = got o
is_last_sent (o ∷ p ∷ orders) = is_last_sent (p ∷ orders)

-- The last order got through, and then the last one that the device got is to start exactly if
-- `reporting`; or it did not get through.
abbrev pub IsHeard : List Order → Bool → Type 0
IsHeard orders reporting =
    ((is_last_sent orders ≡ true) × (is_started (received orders) ≡ reporting))
    ⊎ (is_last_sent orders ≡ false)

received-last :
    (orders : List Order) (o : Order)
    → got o ≡ true
    → received (orders ++ (o ∷ [])) ≡ received orders ++ (o ∷ [])
unfolding received
received-last [] o h = rw h refl
received-last (p ∷ orders) o h = elim (Bool-cases (got p)) [
  | inl e ↦ rw (e, received-last orders o h) refl
  | inr e ↦ rw (e, received-last orders o h) refl
]

is_last_sent-last : (orders : List Order) (o : Order) → is_last_sent (orders ++ (o ∷ [])) ≡ got o
unfolding is_last_sent
is_last_sent-last [] o = refl
is_last_sent-last (p ∷ []) o = refl
is_last_sent-last (p ∷ q ∷ orders) o = is_last_sent-last (q ∷ orders) o

pub last-IsHeard :
    (orders : List Order) (o : Order) (reporting : Bool)
    → is_started (received orders ++ (o ∷ [])) ≡ reporting
    → IsHeard (orders ++ (o ∷ [])) reporting
last-IsHeard orders o reporting h = elim (Bool-cases (got o)) [
  | inl e ↦ inl (is_last_sent-last orders o ∙ e, ap is_started (received-last orders o e) ∙ h)
  | inr e ↦ inr (is_last_sent-last orders o ∙ e)
]
