-- ===== src/Rtty/Keys.antt =====
-- Key strokes on their way from a browser to a device, rttys/RTTYS_server.cpp.
use wlan_cloud_ucentralgw.Base.{
  ℕ, suc, ◌+◌, ◌/◌, ◌%◌, ◌^◌, ◌<◌, ◌≡◌, refl, true, some, List, [], ◌∷◌, ◌++◌, ◌==◌, arith, length,
}
use wlan_cloud_ucentralgw.Base.Dict.{find}
use wlan_cloud_ucentralgw.Rtty.{RttyServer, Net, modify, send_bytes}
use wlan_cloud_ucentralgw.Rtty.Messages.{key_message, key_strokes}
use wlan_cloud_ucentralgw.Rtty.Browser.{keys, on_frame, is_there, on_client_readable}
use wlan_cloud_ucentralgw.Rtty.Stream.{term_message}

key_message-term_message :
    (sid kind : ℕ) (bytes : List ℕ)
    → suc (length bytes) < 2 ^ 16
    → key_message sid (kind ∷ bytes) ≡ term_message (sid, bytes)
unfolding key_message term_message
key_message-term_message sid kind bytes short =
    let high : suc (length bytes) / 2 ^ 8 % 2 ^ 8 ≡ suc (length bytes) / 2 ^ 8 = omega arith in
    rw high refl

-- A frame of key strokes from the browser of an end point whose device's socket is `device` is sent
-- there as one message of terminal data of the session: it holds the bytes of the frame behind the
-- first, and is the message that `term_message` writes. The end point stays unless the socket takes
-- less than the whole message.
pub key_strokes-term_message :
    (net : Net) (fd e device kind : ℕ) (bytes : List ℕ) (s : RttyServer)
    → find fd s.clients ≡ some e
    → is_there (s.heap e).ws_socket ≡ true
    → (s.heap e).device_socket ≡ some device
    → suc (length bytes) < 2 ^ 16
    → net.device_sends device (term_message ((s.heap e).sid, bytes)) ≡ some (4 + length bytes)
    → let t = on_client_readable net fd (keys (kind ∷ bytes)) s in
      (t.to_devices ≡ s.to_devices ++ ((device, term_message ((s.heap e).sid, bytes)) ∷ []))
      × ((t.end_points ≡ s.end_points) × ((t.connected ≡ s.connected) × (t.clients ≡ s.clients)))
unfolding on_client_readable on_frame key_strokes send_bytes modify
key_strokes-term_message net fd e device kind bytes s c w d short takes =
    let message = key_message-term_message (s.heap e).sid kind bytes short in
    let all : (4 + length bytes == 3 + suc (length bytes)) ≡ true = ground arith in
    rw (c, w, on_client_readable)
      (rw (d, send_bytes, message, takes) (rw all (refl, (refl, (refl, refl)))))
