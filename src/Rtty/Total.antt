-- ===== src/Rtty/Total.antt =====
-- The loop of rttys/RTTYS_server.cpp over the buffer of a device ends.
use wlan_cloud_ucentralgw.Base.{
  ℕ, zero, suc, ◌+◌, ◌*◌, ◌%◌, ◌^◌, ◌≤◌, ◌<◌, ◌≡◌, refl, ◌∙◌, some, List, [], ◌∷◌, ◌==◌, ltb, arith,
  length, drop, inl, inr, Bool-cases, Option-cases,
}
use wlan_cloud_ucentralgw.Base.Dict.{find}
use wlan_cloud_ucentralgw.Rtty.{RttyServer, Net}
use wlan_cloud_ucentralgw.Rtty.Messages.{
  read_string, first_byte, registration, do_register, with_client, do_login, do_heartbeat, Gathered,
  do_term_data, dispatch,
}
use wlan_cloud_ucentralgw.Rtty.Device.{
  Loop, device_loop, round, device_loop-waits, device_loop-goes, device_loop-ends,
}

length-drop {ℓ} : {A : Type ℓ} (n : ℕ) (xs : List A) → length (drop n xs) ≤ length xs
length-drop zero xs = omega arith
length-drop (suc n) [] = omega arith
length-drop (suc n) (x ∷ xs) = omega (arith, length-drop n xs)

length-read_string : (xs : List ℕ) → length (read_string xs).1 ≤ length xs
unfolding read_string
length-read_string [] = omega arith
length-read_string (c ∷ xs) = elim (Bool-cases (c == 0)) [
  | inl e ↦ rw e (omega arith)
  | inr e ↦ rw e (omega (arith, length-read_string xs))
]

do_register-shrinks :
    (net : Net) (fd : ℕ) (buffer : List ℕ) (s : RttyServer)
    → length (do_register net fd buffer s).buffer ≤ length buffer
unfolding do_register
do_register-shrinks net fd buffer s =
    let b1 = (read_string buffer).1 in
    let b2 = (read_string b1).1 in
    let b3 = (read_string b2).1 in
    let less : length b3 ≤ length buffer =
      omega (arith, length-read_string buffer, length-read_string b1, length-read_string b2) in
    elim (Option-cases
      (registration fd (read_string buffer).0 (read_string b1).0 (read_string b2).0 s)) [
        | inl q ↦ rw (q, do_register) less
        | inr (e, q) ↦ rw (q, do_register) less
      ]

do_login-shrinks :
    (net : Net) (fd : ℕ) (buffer : List ℕ) (s : RttyServer)
    → length (do_login net fd buffer s).buffer ≤ length buffer
unfolding do_login
do_login-shrinks net fd buffer s =
    let one = length-drop 1 buffer in
    let two = length-drop 1 (drop 1 buffer) in
    elim (Option-cases (with_client fd s)) [
      | inl q ↦ rw (q, do_login) (omega arith)
      | inr (e, q) ↦ elim (Bool-cases (first_byte net buffer == 0)) [
        | inl z ↦ rw (q, z, do_login) (omega (arith, one, two))
        | inr z ↦ rw (q, z, do_login) one
      ]
    ]

do_heartbeat-shrinks :
    (net : Net) (fd : ℕ) (buffer : List ℕ) (s : RttyServer)
    → length (do_heartbeat net fd buffer s).buffer ≤ length buffer
unfolding do_heartbeat
do_heartbeat-shrinks net fd buffer s = elim (Option-cases (find fd s.connected)) [
  | inl q ↦ rw (q, do_heartbeat) (omega arith)
  | inr (e, q) ↦ rw (q, do_heartbeat) (omega arith)
]

do_term_data-shrinks :
    (fd msg_len : ℕ) (buffer : List ℕ) (s : RttyServer) (g : Gathered)
    → length (do_term_data fd msg_len buffer s g).0.buffer ≤ length buffer
unfolding do_term_data
do_term_data-shrinks fd msg_len buffer s g = elim (Option-cases (with_client fd s)) [
  | inl q ↦ rw (q, do_term_data) (omega arith)
  | inr (e, q) ↦
      rw (q, do_term_data) (omega (arith, length-drop 1 buffer, length-drop _ (drop 1 buffer)))
]

-- No message puts bytes back.
dispatch-shrinks :
    (net : Net) (fd type msg_len : ℕ) (buffer : List ℕ) (s : RttyServer) (g : Gathered)
    → length (dispatch net fd type msg_len buffer s g).0.buffer ≤ length buffer
unfolding dispatch
dispatch-shrinks net fd type msg_len buffer s g = elim (Bool-cases (type == 0)) [
  | inl q ↦ rw q (do_register-shrinks net fd buffer s)
  | inr q ↦ elim (Bool-cases (type == 1)) [
    | inl r ↦ rw (q, r) (do_login-shrinks net fd buffer s)
    | inr r ↦ elim (Bool-cases (type == 2)) [
      | inl t ↦ rw (q, r, t) (length-drop msg_len buffer)
      | inr t ↦ elim (Bool-cases (type == 3)) [
        | inl u ↦ rw (q, r, t, u) (do_term_data-shrinks fd msg_len buffer s g)
        | inr u ↦ elim (Bool-cases (type == 6)) [
          | inl w ↦ rw (q, r, t, u, w) (do_heartbeat-shrinks net fd buffer s)
          | inr w ↦ elim (Bool-cases (ltb type 11)) [
            | inl x ↦ rw (q, r, t, u, w, x) (length-drop msg_len buffer)
            | inr x ↦ rw (q, r, t, u, w, x) (omega arith)
          ]
        ]
      ]
    ]
  ]
]

-- Whatever a device has sent, the loop over its buffer ends: every round takes a header out of the
-- buffer, and no message puts bytes back, so as many rounds as there are bytes and one more are
-- enough.
pub device_loop_total :
    (net : Net) (fd fuel : ℕ) (s : RttyServer) (buffer : List ℕ) (g : Gathered)
    → length buffer < fuel
    → (l : Loop) × (device_loop net fd fuel s buffer g ≡ some l)
device_loop_total net fd zero s buffer g h = absurd (omega arith)
device_loop_total net fd (suc fuel) s [] g h = unfold device_loop in (_, refl)
device_loop_total net fd (suc fuel) s (a ∷ []) g h = unfold device_loop in (_, refl)
device_loop_total net fd (suc fuel) s (a ∷ b ∷ []) g h = unfold device_loop in (_, refl)
device_loop_total net fd (suc fuel) s (type ∷ high ∷ low ∷ buffer) g h =
    let msg_len = (high * 2 ^ 8 + low) % 2 ^ 16 in
    let r = round net fd fuel s type high low buffer g in
    let less = dispatch-shrinks net fd type msg_len buffer s g in
    let (l, e) = device_loop_total net fd fuel r.0.server r.0.buffer r.1 (omega (arith, less)) in
    elim (Bool-cases (ltb (length buffer) msg_len)) [
      | inl q ↦ (_, device_loop-waits net fd fuel s type high low buffer g q)
      | inr q ↦ elim (Bool-cases r.0.good) [
        | inl t ↦ (l, device_loop-goes net fd fuel s type high low buffer g q t ∙ e)
        | inr t ↦ (_, device_loop-ends net fd fuel s type high low buffer g q t)
      ]
    ]
