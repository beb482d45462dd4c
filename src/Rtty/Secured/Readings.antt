-- ===== src/Rtty/Secured/Readings.antt =====
-- Each reading from a device, rttys/RTTYS_server.cpp, keeps the sockets secured.
use wlan_cloud_ucentralgw.Base.{
  ℕ, zero, suc, ◌+◌, ◌*◌, ◌%◌, ◌^◌, ◌≡◌, refl, sym, ap, ◌∙◌, Option, none, some, List, [], ◌∷◌,
  ◌++◌, ◌==◌, ltb, arith, inl, inr, Bool-cases, Option-cases, length,
}
use wlan_cloud_ucentralgw.Base.Dict.{find, assign, find-assign}
use wlan_cloud_ucentralgw.Rtty.{SocketPair, RttyServer, Net, binary, send_to_client, end_socket}
use wlan_cloud_ucentralgw.Rtty.Messages.{with_client, Gathered, empty_buffer, flush}
use wlan_cloud_ucentralgw.Rtty.Device.{
  Loop, device_loop, round, device_loop-waits, device_loop-goes, device_loop-ends, put_buffer,
  settle, nothing_gathered, on_device_readable,
}
use wlan_cloud_ucentralgw.Rtty.Secured.{
  IsBound, IsSecured, modify-IsSecured, send_to_client-IsSecured, end_socket-IsSecured,
}
use wlan_cloud_ucentralgw.Radius.Packet.{bytes_at}
use wlan_cloud_ucentralgw.Rtty.Secured.Handlers.{dispatch-IsSecured}

same_loop : (k l : Loop) → some k ≡ some l → IsSecured k.server → IsSecured l.server
same_loop k l e v = let at : k ≡ l = ground (arith, e) in rw (← at) v

device_loop-IsSecured :
    (net : Net) (fd fuel : ℕ) (s : RttyServer) (buffer : List ℕ) (g : Gathered) (l : Loop)
    → device_loop net fd fuel s buffer g ≡ some l
    → IsSecured s
    → IsSecured l.server
unfolding device_loop
device_loop-IsSecured net fd zero s buffer g l h v = absurd (ground (arith, h))
device_loop-IsSecured net fd (suc fuel) s [] g l h v = same_loop _ l h v
device_loop-IsSecured net fd (suc fuel) s (a ∷ []) g l h v = same_loop _ l h v
device_loop-IsSecured net fd (suc fuel) s (a ∷ b ∷ []) g l h v = same_loop _ l h v
device_loop-IsSecured net fd (suc fuel) s (type ∷ high ∷ low ∷ buffer) g l h v =
    let msg_len = (high * 2 ^ 8 + low) % 2 ^ 16 in
    let r = round net fd fuel s type high low buffer g in
    let w = dispatch-IsSecured net fd type msg_len buffer s g v in
    elim (Bool-cases (ltb (length buffer) msg_len)) [
      | inl q ↦ same_loop _ l (sym (device_loop-waits net fd fuel s type high low buffer g q) ∙ h) v
      | inr q ↦ elim (Bool-cases r.0.good) [
        | inl t ↦
            device_loop-IsSecured net fd fuel r.0.server r.0.buffer r.1 l
              (sym (device_loop-goes net fd fuel s type high low buffer g q t) ∙ h) w
        | inr t ↦
            same_loop _ l (sym (device_loop-ends net fd fuel s type high low buffer g q t) ∙ h) w
      ]
    ]

put_buffer-IsSecured :
    (fd : ℕ) (buffer : List ℕ) (s : RttyServer) → IsSecured s → IsSecured (put_buffer fd buffer s)
unfolding put_buffer
put_buffer-IsSecured fd buffer s v = elim (Option-cases (find fd s.sockets)) [
  | inl q ↦ rw (q, put_buffer) v
  | inr (p, q) ↦
      rw (q, put_buffer) (record { bound = λ i e c. put i e p q (v.bound i e c); known = v.known })
]
  where
    put :
        (i e : ℕ) (p : SocketPair)
        → find fd s.sockets ≡ some p
        → IsBound s.heap s.allocated s.sockets i e
        → IsBound s.heap s.allocated (assign fd (record p { buffer = buffer }) s.sockets) i e
    put i e p q b = elim (Bool-cases (fd == i)) [
      | inl h ↦
          let at : fd ≡ i = ground arith in
          let one : some b.pair ≡ some p = sym b.there ∙ ap (λ k. find k s.sockets) (sym at) ∙ q in
          let pair : b.pair ≡ p = ground (arith, one) in
          record {
            pair = record p { buffer = buffer };
            there = find-assign fd i _ s.sockets ∙ rw h refl;
            suits = λ m. sym (ap (λ x. x.valid) pair) ∙ b.suits m;
            made = b.made;
          }
      | inr h ↦ record {
        pair = b.pair;
        there = find-assign fd i _ s.sockets ∙ rw h b.there;
        suits = b.suits;
        made = b.made;
      }
    ]

flush-IsSecured :
    (net : Net) (fd : ℕ) (g : Gathered) (s : RttyServer)
    → IsSecured s
    → IsSecured (flush net fd g s).0
unfolding flush empty_buffer
flush-IsSecured net fd g s v = elim (Bool-cases (g.pos == 0)) [
  | inl z ↦ rw z v
  | inr z ↦ elim (Option-cases (with_client fd s)) [
    | inl q ↦ rw (z, q, empty_buffer) v
    | inr (e, q) ↦
        let message = binary (bytes_at g.bytes 0 g.pos) in
        let c = (s.heap e).ws_socket in
        let w = send_to_client-IsSecured net c message s v in
        elim (Bool-cases (send_to_client net c message s).1) [
          | inr b ↦ rw (z, q, empty_buffer) (rw b w)
          | inl b ↦
              rw (z, q, empty_buffer)
                (rw b (
                  modify-IsSecured e (λ x. record x { rx = (x.rx + g.pos) % 2 ^ 64 })
                    (send_to_client net c message s).0 (λ x. refl) w))
        ]
  ]
]

settle-IsSecured :
    (net : Net) (fd : ℕ) (l : Loop) → IsSecured l.server → IsSecured (settle net fd l)
unfolding settle
settle-IsSecured net fd l v =
    let s = put_buffer fd l.buffer l.server in
    let t = (flush net fd l.gathered s).0 in
    let w = flush-IsSecured net fd l.gathered s (put_buffer-IsSecured fd l.buffer l.server v) in
    let ended = end_socket-IsSecured fd t w in
    elim (Bool-cases l.good) [
      | inr a ↦ rw a ended
      | inl a ↦ elim (Bool-cases (flush net fd l.gathered s).1) [
        | inl b ↦ rw (a, b) w
        | inr b ↦ rw (a, b) ended
      ]
    ]

pub on_device_readable-IsSecured :
    (net : Net) (fd : ℕ) (received : Option (List ℕ)) (s : RttyServer)
    → IsSecured s
    → IsSecured (on_device_readable net fd received s)
unfolding on_device_readable
on_device_readable-IsSecured net fd received s v = elim (Option-cases (find fd s.sockets)) [
  | inl q ↦ rw (q, on_device_readable) v
  | inr (p, q) ↦ rw (q, on_device_readable) (go received p)
]
  where
    go :
        (o : Option (List ℕ)) (p : SocketPair)
        → IsSecured (elim o [
          | none ↦ end_socket fd s
          | some [] ↦ end_socket fd s
          | some (b ∷ bytes) ↦
              let buffer = p.buffer ++ (b ∷ bytes) in
              elim (device_loop net fd (suc (length buffer)) s buffer nothing_gathered) [
                | none ↦ s
                | some l ↦ settle net fd l
              ]
        ])
    go none p = end_socket-IsSecured fd s v
    go (some []) p = end_socket-IsSecured fd s v
    go (some (b ∷ bytes)) p =
        let buffer = p.buffer ++ (b ∷ bytes) in
        elim (Option-cases (device_loop net fd (suc (length buffer)) s buffer nothing_gathered)) [
          | inl h ↦ rw h v
          | inr (l, h) ↦ rw h (
              settle-IsSecured net fd l
                (device_loop-IsSecured net fd _ s buffer nothing_gathered l h v))
        ]
