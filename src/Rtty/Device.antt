-- ===== src/Rtty/Device.antt =====
-- What arrives from a device, `onConnectedDeviceSocketReadable` of rttys/RTTYS_server.cpp.
use wlan_cloud_ucentralgw.Base.{
  ℕ, zero, suc, ◌+◌, ◌*◌, ◌%◌, ◌^◌, Bool, true, false, Option, none, some, List, [], ◌∷◌, ◌++◌, ltb,
  ◌≡◌, refl, if◌then◌else◌, length,
}
use wlan_cloud_ucentralgw.Base.Dict.{find, assign}
use wlan_cloud_ucentralgw.Rtty.{RttyServer, Net, end_socket}
use wlan_cloud_ucentralgw.Rtty.Messages.{Handled, Gathered, dispatch, flush}

-- Where the loop stands, and whether it has stopped at a message that is not complete.
pub record Loop : Type 0 where
  pub server : RttyServer
  pub buffer : List ℕ
  pub gathered : Gathered
  pub good : Bool

-- `while (!buffer.isEmpty() && good)`, on fuel; none means that the fuel ran out. A message that is
-- not complete waits in the buffer.
unfoldable pub device_loop : Net → ℕ → ℕ → RttyServer → List ℕ → Gathered → Option Loop
device_loop net fd zero s buffer g = none
device_loop net fd (suc fuel) s [] g =
    some (record { server = s; buffer = []; gathered = g; good = true })
device_loop net fd (suc fuel) s (a ∷ []) g =
    some (record { server = s; buffer = a ∷ []; gathered = g; good = true })
device_loop net fd (suc fuel) s (a ∷ b ∷ []) g =
    some (record { server = s; buffer = a ∷ b ∷ []; gathered = g; good = true })
device_loop net fd (suc fuel) s (type ∷ high ∷ low ∷ buffer) g =
    let msg_len = (high * 2 ^ 8 + low) % 2 ^ 16 in
    let (h, g') = dispatch net fd type msg_len buffer s g in
    let rest = device_loop net fd fuel h.server h.buffer g' in
    if ltb (length buffer) msg_len
    then some
        (record { server = s; buffer = type ∷ high ∷ low ∷ buffer; gathered = g; good = true })
    else if h.good
    then rest
    else some (record { server = h.server; buffer = h.buffer; gathered = g'; good = false })

-- One round of the loop on a message whose header has arrived.
module _ (net : Net) (fd fuel : ℕ) (s : RttyServer) (type high low : ℕ) (buffer : List ℕ)
    (g : Gathered) where
  abbrev pub round : Handled × Gathered
  round = dispatch net fd type ((high * 2 ^ 8 + low) % 2 ^ 16) buffer s g

  pub device_loop-waits :
      ltb (length buffer) ((high * 2 ^ 8 + low) % 2 ^ 16) ≡ true
      → device_loop net fd (suc fuel) s (type ∷ high ∷ low ∷ buffer) g
        ≡ some
            (record { server = s; buffer = type ∷ high ∷ low ∷ buffer; gathered = g; good = true })
  unfolding device_loop
  device_loop-waits q = rw q refl

  pub device_loop-goes :
      ltb (length buffer) ((high * 2 ^ 8 + low) % 2 ^ 16) ≡ false
      → round.0.good ≡ true
      → device_loop net fd (suc fuel) s (type ∷ high ∷ low ∷ buffer) g
        ≡ device_loop net fd fuel round.0.server round.0.buffer round.1
  unfolding device_loop
  device_loop-goes q r = rw (q, r) refl

  pub device_loop-ends :
      ltb (length buffer) ((high * 2 ^ 8 + low) % 2 ^ 16) ≡ false
      → round.0.good ≡ false
      → device_loop net fd (suc fuel) s (type ∷ high ∷ low ∷ buffer) g
        ≡ some (record {
          server = round.0.server;
          buffer = round.0.buffer;
          gathered = round.1;
          good = false;
        })
  unfolding device_loop
  device_loop-ends q r = rw (q, r) refl

unfoldable pub put_buffer : ℕ → List ℕ → RttyServer → RttyServer
put_buffer fd buffer s = elim (find fd s.sockets) [
  | none ↦ s
  | some p ↦ record s { sockets = assign fd (record p { buffer = buffer }) s.sockets }
]

abbrev pub nothing_gathered : Gathered
nothing_gathered = record { bytes = λ i. 0; pos = 0 }

-- Behind the loop: what was gathered goes to the browser, and the connection ends if a message asks
-- for it or sending throws.
unfoldable pub settle : Net → ℕ → Loop → RttyServer
settle net fd l =
    let s = put_buffer fd l.buffer l.server in
    let (t, calm) = flush net fd l.gathered s in
    if l.good then if calm then t else end_socket fd t else end_socket fd t

-- One reading: `received` is what `receiveBytes` appends to the buffer, none if it throws.
unfoldable pub on_device_readable : Net → ℕ → Option (List ℕ) → RttyServer → RttyServer
on_device_readable net fd received s = elim (find fd s.sockets) [
  | none ↦ s
  | some p ↦ elim received [
    | none ↦ end_socket fd s
    | some [] ↦ end_socket fd s
    | some (b ∷ bytes) ↦
        let buffer = p.buffer ++ (b ∷ bytes) in
        elim (device_loop net fd (suc (length buffer)) s buffer nothing_gathered) [
          | none ↦ s
          | some l ↦ settle net fd l
        ]
  ]
]
