-- ===== src/Rtty/Messages.antt =====
-- What the messages of a device do, the `do_msgType…` functions of rttys/RTTYS_server.cpp, and the
-- messages that are sent to it.
use wlan_cloud_ucentralgw.Base.{
  ℕ, ◌+◌, ◌-◌, ◌/◌, ◌%◌, ◌^◌, Bool, true, false, not, ◌&&◌, ◌||◌, Option, none, some, List, [], ◌∷◌,
  ◌==◌, ltb, if◌then◌else◌, length, take, drop,
}
use wlan_cloud_ucentralgw.Base.Dict.{find, assign}
use wlan_cloud_ucentralgw.Base.Table.{Text, same, get_entry}
use wlan_cloud_ucentralgw.Radius.Parse.{Buffer}
use wlan_cloud_ucentralgw.Radius.Packet.{write, bytes_at}
use wlan_cloud_ucentralgw.Rtty.{
  RttyServer, Net, login_message, binary, modify, send_bytes, send_to_client, has_client,
}

-- `Sent == n`, false if sending threw.
abbrev pub sent_all : Option ℕ → ℕ → Bool
sent_all none n = false
sent_all (some k) n = k == n

-- `Login`: the end point is complete unless sending throws.
unfoldable pub login : Net → ℕ → Option ℕ → RttyServer → RttyServer × Bool
login net e fd s =
    let (t, sent) = send_bytes net e fd (1 ∷ 0 ∷ 0 ∷ []) s in
    elim sent [
      | none ↦ (t, false)
      | some n ↦ (modify e (λ x. record x { completed = true }) t, n == 3)
    ]

unfoldable pub logout : Net → ℕ → Option ℕ → RttyServer → RttyServer × Bool
logout net e fd s =
    let (t, sent) = send_bytes net e fd (2 ∷ 0 ∷ 1 ∷ (s.heap e).sid ∷ []) s in (t, sent_all sent 4)

-- `WindowSize`, each number in its last two bytes as the array of bytes keeps them.
unfoldable pub window_size : Net → ℕ → ℕ → ℕ → RttyServer → RttyServer × Bool
window_size net e cols rows s =
    let bytes =
      4
      ∷ 0
      ∷ 5
      ∷ (s.heap e).sid
      ∷ (cols / 2 ^ 8 % 2 ^ 8)
      ∷ (cols % 2 ^ 8)
      ∷ (rows / 2 ^ 8 % 2 ^ 8)
      ∷ (rows % 2 ^ 8)
      ∷ [] in
    let (t, sent) = send_bytes net e (s.heap e).device_socket bytes s in (t, sent_all sent 8)

-- The message of `KeyStrokes`, the same in the small buffer and in one that is allocated: the first
-- byte of the frame is left out, and the session id takes its place.
unfoldable pub key_message : ℕ → List ℕ → List ℕ
key_message sid bytes =
    3 ∷ (length bytes / 2 ^ 8 % 2 ^ 8) ∷ (length bytes % 2 ^ 8) ∷ sid ∷ drop 1 bytes

unfoldable pub key_strokes : Net → ℕ → List ℕ → RttyServer → RttyServer × Bool
key_strokes net e bytes s =
    let (t, sent) =
      send_bytes net e (s.heap e).device_socket (key_message (s.heap e).sid bytes) s in
    (t, sent_all sent (3 + length bytes))

-- `ReadString`, up to a zero or the end of the buffer.
unfoldable pub read_string : List ℕ → List ℕ × List ℕ
read_string [] = ([], [])
read_string (c ∷ buffer) =
    let (s, rest) = read_string buffer in if c == 0 then ([], buffer) else (c ∷ s, rest)

-- `*buffer.begin()`
abbrev pub first_byte : Net → List ℕ → ℕ
first_byte net [] = net.stale
first_byte net (c ∷ buffer) = c

-- What a handler leaves: the server, the bytes that wait, and whether the connection goes on.
pub record Handled : Type 0 where
  pub server : RttyServer
  pub buffer : List ℕ
  pub good : Bool

abbrev pub handled : RttyServer → List ℕ → Bool → Handled
handled s buffer good = record { server = s; buffer = buffer; good = good }

-- The device is bound to the end point, told so, and logged in if a browser is there.
unfoldable pub attach : Net → ℕ → ℕ → RttyServer → RttyServer × Bool
attach net fd e s =
    let s1 = modify e (λ x. record x { device_fd = some fd }) s in
    let s2 : RttyServer = record s1 { connected = assign fd e s1.connected } in
    let (s3, sent) = send_bytes net e (some fd) (0 ∷ 0 ∷ 4 ∷ 0 ∷ 79 ∷ 75 ∷ 0 ∷ []) s2 in
    let s4 = modify e (λ x. record x { device_is_attached = true; device_socket = some fd }) s3 in
    if sent_all sent 7
    then if has_client (s4.heap e).ws_socket
      then ((login net e (some fd) s4).0, true)
      else (s4, true)
    else (s3, false)

-- Which end point may be attached to the socket by these strings.
unfoldable pub registration : ℕ → Text → Text → Text → RttyServer → Option ℕ
registration fd id desc token s =
    if not (length id == 32) || (not (length token == 32) || length desc == 0)
    then none
    else elim (get_entry id s.end_points) [
      | none ↦ none
      | some e ↦
          if same (s.heap e).token token
          then elim (find fd s.sockets) [
            | none ↦ none
            | some p ↦ if (s.heap e).mtls && not p.valid then none else some e
          ]
          else none
    ]

unfoldable pub do_register : Net → ℕ → List ℕ → RttyServer → Handled
do_register net fd buffer s =
    let (id, b1) = read_string buffer in
    let (desc, b2) = read_string b1 in
    let (token, b3) = read_string b2 in
    elim (registration fd id desc token s) [
      | none ↦ handled s b3 false
      | some e ↦ let (t, good) = attach net fd e s in handled t b3 good
    ]

-- The end point of the socket, if it has a browser.
unfoldable pub with_client : ℕ → RttyServer → Option ℕ
with_client fd s = elim (find fd s.connected) [
  | none ↦ none
  | some e ↦ if has_client (s.heap e).ws_socket then some e else none
]

unfoldable pub do_login : Net → ℕ → List ℕ → RttyServer → Handled
do_login net fd buffer s = elim (with_client fd s) [
  | none ↦ handled s buffer false
  | some e ↦
      let error = first_byte net buffer in
      let b1 = drop 1 buffer in
      if error == 0
      then (let sid = first_byte net b1 in
          let t = modify e (λ x. record x { sid = sid }) s in
          let (u, good) = send_to_client net (t.heap e).ws_socket (login_message error) t in
          handled u (drop 1 b1) good)
      else handled s b1 false
]

-- `do_msgTypeHeartbeat` answers, and leaves the buffer as it is.
unfoldable pub do_heartbeat : Net → ℕ → List ℕ → RttyServer → Handled
do_heartbeat net fd buffer s = elim (find fd s.connected) [
  | none ↦ handled s buffer false
  | some e ↦
      let (t, sent) = send_bytes net e (some fd) (6 ∷ 0 ∷ 0 ∷ []) s in
      handled t buffer (sent_all sent 3)
]

-- The terminal data that one reading gathers: a buffer, and how far it is filled.
pub record Gathered : Type 0 where
  pub bytes : Buffer
  pub pos : ℕ

-- `do_msgTypeTermData` drops the session id. `msg_len--` and `pos` wrap at 64 bits, and `read` takes
-- no more than there is.
unfoldable pub do_term_data : ℕ → ℕ → List ℕ → RttyServer → Gathered → Handled × Gathered
do_term_data fd msg_len buffer s g = elim (with_client fd s) [
  | none ↦ (handled s buffer false, g)
  | some e ↦
      let b1 = drop 1 buffer in
      let n = (msg_len + 2 ^ 64 - 1) % 2 ^ 64 in
      let k = if ltb n (length b1) then n else length b1 in
      (
        handled s (drop k b1) true,
        record { bytes = write g.bytes g.pos (take k b1); pos = (g.pos + n) % 2 ^ 64 },
      )
]

-- `EmptyBuffer`; false if it throws.
unfoldable pub empty_buffer : Net → ℕ → Gathered → RttyServer → RttyServer × Bool
empty_buffer net fd g s = elim (with_client fd s) [
  | none ↦ (s, true)
  | some e ↦
      let (t, good) =
        send_to_client net (s.heap e).ws_socket (binary (bytes_at g.bytes 0 g.pos)) s in
      if good
      then (modify e (λ x. record x { rx = (x.rx + g.pos) % 2 ^ 64 }) t, true)
      else (t, false)
]

unfoldable pub flush : Net → ℕ → Gathered → RttyServer → RttyServer × Bool
flush net fd g s = if g.pos == 0 then (s, true) else empty_buffer net fd g s

-- The message whose header has been drained. The types 2 to 10 but terminal data and heartbeats are
-- skipped; 2, the logout, and an unknown type end the connection.
unfoldable pub dispatch : Net → ℕ → ℕ → ℕ → List ℕ → RttyServer → Gathered → Handled × Gathered
dispatch net fd type msg_len buffer s g =
    if type == 0
    then (do_register net fd buffer s, g)
    else if type == 1
    then (do_login net fd buffer s, g)
    else if type == 2
    then (handled s (drop msg_len buffer) false, g)
    else if type == 3
    then do_term_data fd msg_len buffer s g
    else if type == 6
    then (do_heartbeat net fd buffer s, g)
    else if ltb type 11
    then (handled s (drop msg_len buffer) true, g)
    else (handled s buffer false, g)
