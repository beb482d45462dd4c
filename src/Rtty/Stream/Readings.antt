-- ===== src/Rtty/Stream/Readings.antt =====
-- Terminal data on its way from a device to a browser, rttys/RTTYS_server.cpp, in any pieces.
use mathlib.Core.Path.{subst}
use mathlib.Core.List.{append_assoc, append-nil}
use wlan_cloud_ucentralgw.Base.{
  ℕ, suc, ◌+◌, ◌%◌, ◌^◌, ◌≤◌, ◌<◌, ◌≡◌, refl, sym, ap, ◌∙◌, true, some, List, [], ◌∷◌, ◌++◌, ◌==◌,
  if◌then◌else◌, arith, length, All, inl, inr, Bool-cases,
}
use wlan_cloud_ucentralgw.Base.Dict.{find, find-assign}
use wlan_cloud_ucentralgw.Radius.Packet.{bytes_at}
use wlan_cloud_ucentralgw.Radius.Packet.Values.{bytes_at-Holds}
use wlan_cloud_ucentralgw.Rtty.{
  RttyServer, SocketPair, ClientMessage, login_message, binary, open_client, Net, modify,
  send_to_client,
}
use wlan_cloud_ucentralgw.Rtty.Messages.{with_client, Gathered, empty_buffer, flush}
use wlan_cloud_ucentralgw.Rtty.Device.{
  Loop, device_loop, put_buffer, settle, nothing_gathered, on_device_readable,
}
use wlan_cloud_ucentralgw.Rtty.Stream.{TermData, term_message, stream, payloads, IsShort, IsFilled}
use wlan_cloud_ucentralgw.Rtty.Stream.Consume.{consume}

-- The terminal data that have been sent to a web socket.
unfoldable pub terminal : ℕ → List (ℕ × ClientMessage) → List ℕ
terminal ws [] = []
terminal ws ((fd, login_message error) ∷ log) = terminal ws log
terminal ws ((fd, binary bytes) ∷ log) =
    let rest = terminal ws log in if fd == ws then bytes ++ rest else rest

terminal-append :
    (ws : ℕ) (log : List (ℕ × ClientMessage)) (bytes : List ℕ)
    → terminal ws (log ++ ((ws, binary bytes) ∷ [])) ≡ terminal ws log ++ bytes
unfolding terminal
terminal-append ws [] bytes =
    let here : (ws == ws) ≡ true = ground arith in rw here (append-nil bytes)
terminal-append ws ((fd, login_message error) ∷ log) bytes = terminal-append ws log bytes
terminal-append ws ((fd, binary b) ∷ log) bytes = elim (Bool-cases (fd == ws)) [
  | inl h ↦
      rw h
        (ap (◌++◌ b) (terminal-append ws log bytes) ∙ sym (append_assoc b (terminal ws log) bytes))
  | inr h ↦ rw h (terminal-append ws log bytes)
]

stream-nil : (ms : List TermData) → stream ms ≡ [] → payloads ms ≡ []
unfolding stream payloads term_message
stream-nil [] h = refl
stream-nil ((sid, bytes) ∷ ms) h = absurd (ground (arith, h))

-- A device with a browser: the socket `fd` is bound to `e`, whose web socket is `ws`, and these
-- bytes wait.
pub record IsReady (fd e ws : ℕ) (buffer : List ℕ) (s : RttyServer) : Type 0 where
  pub connected : find fd s.connected ≡ some e
  pub browser : (s.heap e).ws_socket ≡ open_client ws
  pub pair : SocketPair
  pub there : find fd s.sockets ≡ some pair
  pub waits : pair.buffer ≡ buffer

-- Readings of one socket, each of at least one byte.
unfoldable pub readings : Net → ℕ → List (ℕ × List ℕ) → RttyServer → RttyServer
readings net fd [] s = s
readings net fd ((c, cs) ∷ chunks) s =
    readings net fd chunks (on_device_readable net fd (some (c ∷ cs)) s)

unfoldable pub bytes_of : List (ℕ × List ℕ) → List ℕ
bytes_of [] = []
bytes_of ((c, cs) ∷ chunks) = (c ∷ cs) ++ bytes_of chunks

module _ (net : Net) (fd e ws : ℕ)
    (reaches : (m : ClientMessage) → net.client_sends ws m ≡ true) where
  client-IsReady :
      (buffer : List ℕ) (s : RttyServer) → IsReady fd e ws buffer s → with_client fd s ≡ some e
  unfolding with_client
  client-IsReady buffer s v = rw (v.connected, with_client) (rw v.browser refl)

  put_buffer-IsReady :
      (buffer next : List ℕ) (s : RttyServer)
      → IsReady fd e ws buffer s
      → IsReady fd e ws next (put_buffer fd next s)
        × ((put_buffer fd next s).to_clients ≡ s.to_clients)
  unfolding put_buffer
  put_buffer-IsReady buffer next s v =
      let here : (fd == fd) ≡ true = ground arith in
      rw (v.there, put_buffer)
        (
          record {
            connected = v.connected;
            browser = v.browser;
            pair = record (v.pair) { buffer = next };
            there = find-assign fd fd _ s.sockets ∙ rw here refl;
            waits = refl;
          },
          refl,
        )

  modify-IsReady :
      (n : ℕ) (buffer : List ℕ) (s : RttyServer)
      → IsReady fd e ws buffer s
      → IsReady fd e ws buffer (modify e (λ x. record x { rx = (x.rx + n) % 2 ^ 64 }) s)
  unfolding modify
  modify-IsReady n buffer s v =
      let here : (e == e) ≡ true = ground arith in
      record {
        connected = v.connected;
        browser = rw here v.browser;
        pair = v.pair;
        there = v.there;
        waits = v.waits;
      }

  -- What a reading leaves.
  flush-IsReady :
      (g : Gathered) (out buffer : List ℕ) (s : RttyServer)
      → IsFilled g out
      → IsReady fd e ws buffer s
      → ((flush net fd g s).1 ≡ true)
        × (IsReady fd e ws buffer (flush net fd g s).0
            × (terminal ws (flush net fd g s).0.to_clients ≡ terminal ws s.to_clients ++ out))
  unfolding flush empty_buffer send_to_client
  flush-IsReady g out buffer s f v = elim (Bool-cases (g.pos == 0)) [
    | inl z ↦
        let none_out : out ≡ [] = empty out (ground (arith, f.filled)) in
        rw z (refl, (v, rw none_out (sym (append-nil _))))
    | inr z ↦
        let message = binary (bytes_at g.bytes 0 g.pos) in
        let t : RttyServer = record s { to_clients = s.to_clients ++ ((ws, message) ∷ []) } in
        let w : IsReady fd e ws buffer t = record {
          connected = v.connected;
          browser = v.browser;
          pair = v.pair;
          there = v.there;
          waits = v.waits;
        } in
        let sent_data : bytes_at g.bytes 0 g.pos ≡ out =
          ap (bytes_at g.bytes 0) f.filled ∙ bytes_at-Holds g.bytes 0 out f.holds in
        let sends : send_to_client net (s.heap e).ws_socket message s ≡ (t, true) =
          rw (v.browser, send_to_client) (rw (reaches message) refl) in
        rw (z, client-IsReady buffer s v, empty_buffer)
          (rw sends (
            refl,
            (
              modify-IsReady g.pos buffer t w,
              unfold modify in
                  (terminal-append ws s.to_clients _
                    ∙ ap (◌++◌ (terminal ws s.to_clients)) sent_data),
            ),
          ))
  ]
    where
      empty : (o : List ℕ) → length o ≡ 0 → o ≡ []
      empty [] h = refl
      empty (x ∷ o) h = absurd (omega (arith, h))

  -- What one reading makes of a part of the stream.
  pub record Advanced (buffer : List ℕ) (ms : List TermData) (rest : List ℕ) (s t : RttyServer)
      : Type 0 where
    pub next : List ℕ
    pub left : List TermData
    pub gathered : List ℕ
    pub ready : IsReady fd e ws next t
    pub waits : next ++ rest ≡ stream left
    pub short : All IsShort left
    pub arrived : terminal ws t.to_clients ≡ terminal ws s.to_clients ++ gathered
    pub data_kept : gathered ++ payloads left ≡ payloads ms
    pub at_end : rest ≡ [] → next ≡ []
    pub shorter : length (stream left) ≤ length (stream ms)

  settle-good :
      (l : Loop)
      → l.good ≡ true
      → (flush net fd l.gathered (put_buffer fd l.buffer l.server)).1 ≡ true
      → settle net fd l ≡ (flush net fd l.gathered (put_buffer fd l.buffer l.server)).0
  unfolding settle
  settle-good l g f = rw (g, f) refl

  reading-loop :
      (s : RttyServer) (p : SocketPair) (c : ℕ) (cs : List ℕ) (l : Loop)
      → find fd s.sockets ≡ some p
      → device_loop net fd
          (suc (length (p.buffer ++ (c ∷ cs))))
          s
          (p.buffer ++ (c ∷ cs))
          nothing_gathered
        ≡ some l
      → on_device_readable net fd (some (c ∷ cs)) s ≡ settle net fd l
  unfolding on_device_readable
  reading-loop s p c cs l q h = rw (q, on_device_readable) (rw h refl)

  reading :
      (buffer : List ℕ) (c : ℕ) (cs rest : List ℕ) (ms : List TermData) (s : RttyServer)
      → IsReady fd e ws buffer s
      → (buffer ++ (c ∷ cs)) ++ rest ≡ stream ms
      → All IsShort ms
      → length (stream ms) < 2 ^ 63
      → Advanced buffer ms rest s (on_device_readable net fd (some (c ∷ cs)) s)
  reading buffer c cs rest ms s v q short room =
      let whole : (v.pair.buffer ++ (c ∷ cs)) ++ rest ≡ stream ms =
        ap (λ x. (x ++ (c ∷ cs)) ++ rest) v.waits ∙ q in
      let b = v.pair.buffer ++ (c ∷ cs) in
      let r =
        consume net fd e s (client-IsReady buffer s v) ms (suc (length b)) nothing_gathered b rest
          [] whole (omega arith) (record { holds = tt; filled = refl }) short (omega arith) in
      let l = r.stop in
      let there : IsReady fd e ws buffer l.server =
        subst (λ x. IsReady fd e ws buffer x) (sym r.server) v in
      let (put, same_log) = put_buffer-IsReady buffer l.buffer l.server there in
      let (calm, (ready, arrived)) =
        flush-IsReady l.gathered r.gathered l.buffer (put_buffer fd l.buffer l.server) r.filled
          put in
      let result : on_device_readable net fd (some (c ∷ cs)) s
          ≡ (flush net fd l.gathered (put_buffer fd l.buffer l.server)).0 =
        reading-loop s v.pair c cs l v.there r.stopped ∙ settle-good l r.good calm in
      let log : (put_buffer fd l.buffer l.server).to_clients ≡ s.to_clients =
        same_log ∙ ap (λ x. x.to_clients) r.server in
      subst (λ t. Advanced buffer ms rest s t) (sym result)
        (record {
          next = l.buffer;
          left = r.left;
          gathered = r.gathered;
          ready = ready;
          waits = r.waits;
          short = r.short;
          arrived = arrived ∙ ap (λ x. terminal ws x ++ r.gathered) log;
          data_kept = r.data_kept;
          at_end = r.at_end;
          shorter = r.shorter;
        })

  readings-next :
      (chunks : List (ℕ × List ℕ)) (buffer : List ℕ) (ms : List TermData) (s : RttyServer)
      → IsReady fd e ws buffer s
      → buffer ++ bytes_of chunks ≡ stream ms
      → All IsShort ms
      → length (stream ms) < 2 ^ 63
      → (bytes_of chunks ≡ [] → buffer ≡ [])
      → let t = readings net fd chunks s in
        IsReady fd e ws [] t × (terminal ws t.to_clients ≡ terminal ws s.to_clients ++ payloads ms)
  unfolding readings bytes_of
  readings-next [] buffer ms s v q short room end =
      let empty = end refl in
      let none_left = stream-nil ms (sym q ∙ append-nil buffer ∙ empty) in
      (subst (λ b. IsReady fd e ws b s) empty v, rw none_left (sym (append-nil _)))
  readings-next ((c, cs) ∷ chunks) buffer ms s v q short room end =
      let whole = append_assoc buffer (c ∷ cs) (bytes_of chunks) ∙ q in
      let r = reading buffer c cs (bytes_of chunks) ms s v whole short room in
      let t = on_device_readable net fd (some (c ∷ cs)) s in
      let (ready, arrived) =
        readings-next chunks r.next r.left t r.ready r.waits r.short
          (omega (arith, room, r.shorter)) r.at_end in
      (
        ready,
        arrived
            ∙ ap (λ x. x ++ payloads r.left) r.arrived
            ∙ append_assoc (terminal ws s.to_clients) r.gathered (payloads r.left)
            ∙ ap (◌++◌ (terminal ws s.to_clients)) r.data_kept,
      )

  -- Let a device be bound to an end point whose browser takes what it is sent. When the device sends
  -- messages of terminal data, in pieces of any size that reading makes, the browser gets exactly
  -- the data of the messages, in order, behind what it had, and no byte is left waiting.
  pub readings-stream :
      (chunks : List (ℕ × List ℕ)) (ms : List TermData) (s : RttyServer)
      → IsReady fd e ws [] s
      → bytes_of chunks ≡ stream ms
      → All IsShort ms
      → length (stream ms) < 2 ^ 63
      → let t = readings net fd chunks s in
        IsReady fd e ws [] t × (terminal ws t.to_clients ≡ terminal ws s.to_clients ++ payloads ms)
  readings-stream chunks ms s v q short room =
      readings-next chunks [] ms s v q short room (λ h. refl)
