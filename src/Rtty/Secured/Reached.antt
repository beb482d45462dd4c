-- ===== src/Rtty/Secured/Reached.antt =====
-- The servers that rttys/RTTYS_server.cpp reaches.
use wlan_cloud_ucentralgw.Base.{
  ℕ, refl, Bool, true, false, not, ◌&&◌, Option, none, some, [], ◌∷◌, arith, inl, inr, Bool-cases,
  Option-cases,
}
use wlan_cloud_ucentralgw.Base.Dict.{find, assign}
use wlan_cloud_ucentralgw.Base.Table.{Text, Table, get_entry}
use wlan_cloud_ucentralgw.Rtty.{
  ClientSocket, no_client, closed_client, open_client, RttyServer, Net, modify, end_connection,
}
use wlan_cloud_ucentralgw.Rtty.Messages.{window_size, key_strokes}
use wlan_cloud_ucentralgw.Rtty.Browser.{
  open_web_socket, create_ws_client, Frame, no_frame, ping, pong, empty_frame, bad_text, other_text,
  cont_frame, close_frame, other_frame, broken, window, keys, end_unless, on_frame, is_there,
  on_client_readable, on_client_shutdown, is_stale, sweep, on_timer,
}
use wlan_cloud_ucentralgw.Rtty.Steps.{
  Call, creates, accepts, device_reads, device_ends, client_opens, client_reads, client_ends, timer,
  step, IsProper, Reach, new, next,
}
use wlan_cloud_ucentralgw.Rtty.Secured.{
  IsSecured, modify-IsSecured, send_bytes-IsSecured, end_connection-IsSecured, end_socket-IsSecured,
  add_new_socket-IsSecured, create_end_point-IsSecured,
}
use wlan_cloud_ucentralgw.Rtty.Secured.Handlers.{login-IsSecured}
use wlan_cloud_ucentralgw.Rtty.Secured.Readings.{on_device_readable-IsSecured}

open_web_socket-IsSecured :
    (net : Net) (fd e : ℕ) (s : RttyServer) → IsSecured s → IsSecured (open_web_socket net fd e s)
unfolding open_web_socket
open_web_socket-IsSecured net fd e s v =
    let s1 = modify e (λ x. record x { ws_socket = open_client fd }) s in
    let s2 : RttyServer = record s1 { clients = assign fd e s1.clients } in
    let w : IsSecured s2 =
      modify-IsSecured e (λ x. record x { ws_socket = open_client fd }) s (λ x. refl) v in
    elim (Bool-cases ((s2.heap e).device_is_attached && not (s2.heap e).completed)) [
      | inr q ↦ rw q w
      | inl q ↦ elim (Option-cases (s2.heap e).device_fd) [
        | inl d ↦ rw (q, d) w
        | inr (device, d) ↦ elim (Option-cases (find device s2.sockets)) [
          | inl p ↦ rw (q, d, p) w
          | inr (pair, p) ↦ rw (q, d, p) (login-IsSecured net e (some device) s2 w)
        ]
      ]
    ]

create_ws_client-IsSecured :
    (net : Net) (made : Option ℕ) (id : Text) (s : RttyServer)
    → IsSecured s
    → IsSecured (create_ws_client net made id s)
unfolding create_ws_client
create_ws_client-IsSecured net made id s v = elim (Option-cases (get_entry id s.end_points)) [
  | inl q ↦ rw (q, create_ws_client) v
  | inr (e, q) ↦ rw (q, create_ws_client) (go e (s.heap e).ws_socket made)
]
  where
    go :
        (e : ℕ) (c : ClientSocket) (o : Option ℕ)
        → IsSecured (elim c [
          | no_client ↦ elim o [ none ↦ s | some fd ↦ open_web_socket net fd e s ]
          | closed_client ↦ s
          | open_client other ↦ s
        ])
    go e no_client none = v
    go e no_client (some fd) = open_web_socket-IsSecured net fd e s v
    go e closed_client o = v
    go e (open_client other) o = v

end_unless-IsSecured : (e : ℕ) (r : RttyServer × Bool) → IsSecured r.0 → IsSecured (end_unless e r)
end_unless-IsSecured e (s, true) v = v
end_unless-IsSecured e (s, false) v = end_connection-IsSecured e s v

on_frame-IsSecured :
    (net : Net) (e : ℕ) (frame : Frame) (s : RttyServer)
    → IsSecured s
    → IsSecured (on_frame net e frame s)
unfolding on_frame window_size key_strokes
on_frame-IsSecured net e (window cols rows) s v =
    end_unless-IsSecured e (window_size net e cols rows s) (send_bytes-IsSecured net e _ _ s v)
on_frame-IsSecured net e (keys bytes) s v =
    end_unless-IsSecured e (key_strokes net e bytes s) (send_bytes-IsSecured net e _ _ s v)
on_frame-IsSecured net e empty_frame s v = end_connection-IsSecured e s v
on_frame-IsSecured net e bad_text s v = end_connection-IsSecured e s v
on_frame-IsSecured net e cont_frame s v = end_connection-IsSecured e s v
on_frame-IsSecured net e close_frame s v = end_connection-IsSecured e s v
on_frame-IsSecured net e broken s v = end_connection-IsSecured e s v
on_frame-IsSecured net e no_frame s v = v
on_frame-IsSecured net e ping s v = v
on_frame-IsSecured net e pong s v = v
on_frame-IsSecured net e other_text s v = v
on_frame-IsSecured net e other_frame s v = v

on_client_readable-IsSecured :
    (net : Net) (fd : ℕ) (frame : Frame) (s : RttyServer)
    → IsSecured s
    → IsSecured (on_client_readable net fd frame s)
unfolding on_client_readable
on_client_readable-IsSecured net fd frame s v = elim (Option-cases (find fd s.clients)) [
  | inl q ↦ rw (q, on_client_readable) v
  | inr (e, q) ↦ elim (Bool-cases (is_there (s.heap e).ws_socket)) [
    | inl c ↦ rw (q, c, on_client_readable) (on_frame-IsSecured net e frame s v)
    | inr c ↦ rw (q, c, on_client_readable) v
  ]
]

sweep-IsSecured :
    (now : ℕ) (points : Table ℕ) (s : RttyServer) → IsSecured s → IsSecured (sweep now points s)
unfolding sweep
sweep-IsSecured now [] s v = v
sweep-IsSecured now ((id, e) ∷ rest) s v =
    let kept = sweep-IsSecured now rest s v in
    let ended = sweep-IsSecured now rest (end_connection e s) (end_connection-IsSecured e s v) in
    elim (Bool-cases (is_stale now (s.heap e))) [ inl q ↦ rw q ended | inr q ↦ rw q kept ]

pub step-IsSecured :
    (net : Net) (call : Call) (s : RttyServer)
    → IsProper call s
    → IsSecured s
    → IsSecured (step net call s)
unfolding step on_client_shutdown on_timer
step-IsSecured net (creates locked now id token user serial mtls) s h v =
    create_end_point-IsSecured locked now id token user serial mtls s v
step-IsSecured net (accepts fd valid) s h v = add_new_socket-IsSecured fd valid s h v
step-IsSecured net (device_reads fd received) s h v =
    on_device_readable-IsSecured net fd received s v
step-IsSecured net (device_ends fd) s h v = end_socket-IsSecured fd s v
step-IsSecured net (client_opens made id) s h v = create_ws_client-IsSecured net made id s v
step-IsSecured net (client_reads fd frame) s h v = on_client_readable-IsSecured net fd frame s v
step-IsSecured net (client_ends fd) s h v = elim (Option-cases (find fd s.clients)) [
  | inl q ↦ rw (q, on_client_shutdown) v
  | inr (e, q) ↦ rw (q, on_client_shutdown) (end_connection-IsSecured e s v)
]
step-IsSecured net (timer now) s h v = sweep-IsSecured now s.end_points s v

-- In every server that is reached, whatever devices, browsers and the network do: a socket that is
-- bound to an end point is open, and if the end point asks for a client certificate, the
-- certificate of the socket was found valid when it was accepted.
pub Reach-IsSecured : {s : RttyServer} → Reach s → IsSecured s
Reach-IsSecured (new {s} h) = record {
  bound = λ fd e q. absurd (unfold find in ground (arith, h.no_connected, q));
  known = λ id e q. absurd (unfold get_entry in ground (arith, h.no_end_points, q));
}
Reach-IsSecured (next {s} net call r h) = step-IsSecured net call s h (Reach-IsSecured r)
