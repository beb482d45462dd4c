-- ===== src/Rtty/Browser.antt =====
-- What arrives from a browser, and the timer: `CreateWSClient`, `onClientSocketReadable` and
-- `onTimer` of rttys/RTTYS_server.cpp.
use wlan_cloud_ucentralgw.Base.{
  ℕ, ◌-◌, ◌*◌, Bool, true, false, not, ◌&&◌, Option, none, some, List, [], ◌∷◌, ltb, if◌then◌else◌,
}
use wlan_cloud_ucentralgw.Base.Dict.{find, assign}
use wlan_cloud_ucentralgw.Base.Table.{Text, Table, get_entry}
use wlan_cloud_ucentralgw.Rtty.{
  EndPoint, ClientSocket, no_client, closed_client, open_client, RttyServer, Net, modify,
  end_connection,
}
use wlan_cloud_ucentralgw.Rtty.Messages.{login, window_size, key_strokes}

-- The web socket gets the descriptor `fd`.
unfoldable pub open_web_socket : Net → ℕ → ℕ → RttyServer → RttyServer
open_web_socket net fd e s =
    let s1 = modify e (λ x. record x { ws_socket = open_client fd }) s in
    let s2 : RttyServer = record s1 { clients = assign fd e s1.clients } in
    if (s2.heap e).device_is_attached && not (s2.heap e).completed
    then elim (s2.heap e).device_fd [
      | none ↦ s2
      | some device ↦ elim (find device s2.sockets) [
        | none ↦ s2
        | some p ↦ (login net e (some device) s2).0
      ]
    ]
    else s2

-- `CreateWSClient`, with none if the web socket cannot be made. A session has one browser at most.
unfoldable pub create_ws_client : Net → Option ℕ → Text → RttyServer → RttyServer
create_ws_client net made id s = elim (get_entry id s.end_points) [
  | none ↦ s
  | some e ↦ elim (s.heap e).ws_socket [
    | no_client ↦ elim made [ none ↦ s | some fd ↦ open_web_socket net fd e s ]
    | closed_client ↦ s
    | open_client other ↦ s
  ]
]

-- What `receiveFrame` returns. A text is a JSON document: the size of a window, another document,
-- or one whose parsing throws. An empty frame is a text or binary frame without bytes; `cont_frame`
-- falls through to the case of `close_frame`.
pub data Frame : Type 0 where
  no_frame ping pong empty_frame bad_text other_text cont_frame close_frame other_frame broken :
      Frame
  window : ℕ → ℕ → Frame
  keys : List ℕ → Frame

abbrev pub end_unless : ℕ → RttyServer × Bool → RttyServer
end_unless e (s, good) = if good then s else end_connection e s

unfoldable pub on_frame : Net → ℕ → Frame → RttyServer → RttyServer
on_frame net e (window cols rows) s = end_unless e (window_size net e cols rows s)
on_frame net e (keys bytes) s = end_unless e (key_strokes net e bytes s)
on_frame net e empty_frame s = end_connection e s
on_frame net e bad_text s = end_connection e s
on_frame net e cont_frame s = end_connection e s
on_frame net e close_frame s = end_connection e s
on_frame net e broken s = end_connection e s
on_frame net e no_frame s = s
on_frame net e ping s = s
on_frame net e pong s = s
on_frame net e other_text s = s
on_frame net e other_frame s = s

abbrev pub is_there : ClientSocket → Bool
is_there no_client = false
is_there closed_client = true
is_there (open_client fd) = true

unfoldable pub on_client_readable : Net → ℕ → Frame → RttyServer → RttyServer
on_client_readable net fd frame s = elim (find fd s.clients) [
  | none ↦ s
  | some e ↦ if is_there (s.heap e).ws_socket then on_frame net e frame s else s
]

-- `onClientSocketShutdown` and `onClientSocketError`.
unfoldable pub on_client_shutdown : ℕ → RttyServer → RttyServer
on_client_shutdown fd s = elim (find fd s.clients) [ none ↦ s | some e ↦ end_connection e s ]

-- Two minutes, in milliseconds.
abbrev pub is_stale : ℕ → EndPoint → Bool
is_stale now x = ltb (2 * 60 * 1000) (now - x.created) && not x.completed

-- `onTimer` over the end points in their order.
unfoldable pub sweep : ℕ → Table ℕ → RttyServer → RttyServer
sweep now [] s = s
sweep now ((id, e) ∷ rest) s =
    if is_stale now (s.heap e) then sweep now rest (end_connection e s) else sweep now rest s

unfoldable pub on_timer : ℕ → RttyServer → RttyServer
on_timer now s = sweep now s.end_points s
