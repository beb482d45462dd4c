-- ===== src/Rtty/Secured/Handlers.antt =====
-- The handlers of rttys/RTTYS_server.cpp keep the sockets secured.
use mathlib.Core.Path.{subst}
use wlan_cloud_ucentralgw.Base.{
  ℕ, ◌<◌, ◌≡◌, refl, sym, ◌∙◌, true, not, ◌&&◌, ◌||◌, Option, some, List, [], ◌∷◌, ◌==◌, ltb, arith,
  inl, inr, Bool-cases, Option-cases, length, drop,
}
use wlan_cloud_ucentralgw.Base.Dict.{find, assign, find-assign}
use wlan_cloud_ucentralgw.Base.Table.{Text, same, get_entry}
use wlan_cloud_ucentralgw.Rtty.{
  SocketPair, RttyServer, Net, login_message, modify, send_bytes, has_client,
}
use wlan_cloud_ucentralgw.Rtty.Messages.{
  sent_all, login, read_string, first_byte, attach, registration, do_register, with_client,
  do_login, do_heartbeat, Gathered, do_term_data, dispatch,
}
use wlan_cloud_ucentralgw.Rtty.Secured.{
  Suits, IsBound, IsSecured, modify-IsSecured, send_bytes-IsSecured, send_to_client-IsSecured,
}

pub login-IsSecured :
    (net : Net) (e : ℕ) (fd : Option ℕ) (s : RttyServer)
    → IsSecured s
    → IsSecured (login net e fd s).0
unfolding login
login-IsSecured net e fd s v =
    let w = send_bytes-IsSecured net e fd (1 ∷ 0 ∷ 0 ∷ []) s v in
    elim (Option-cases (send_bytes net e fd (1 ∷ 0 ∷ 0 ∷ []) s).1) [
      | inl q ↦ rw (q, login) w
      | inr (n, q) ↦
          rw (q, login)
            (modify-IsSecured e _ (send_bytes net e fd (1 ∷ 0 ∷ 0 ∷ []) s).0 (λ x. refl) w)
    ]

-- What the end point, the socket and the strings of a registration must be.
pub record IsRegistered (fd : ℕ) (id token : Text) (s : RttyServer) (e : ℕ) : Type 0 where
  pub known : get_entry id s.end_points ≡ some e
  pub token_right : same (s.heap e).token token ≡ true
  pub pair : SocketPair
  pub there : find fd s.sockets ≡ some pair
  pub suits : Suits (s.heap e) pair

-- A device is attached to an end point only by the token of the end point, over a socket that is
-- open, and whose certificate is valid if the end point asks for one.
pub registration-IsRegistered :
    (fd : ℕ) (id desc token : Text) (s : RttyServer) (e : ℕ)
    → registration fd id desc token s ≡ some e
    → IsRegistered fd id token s e
unfolding registration
registration-IsRegistered fd id desc token s e h =
    elim (Bool-cases (not (length id == 32) || (not (length token == 32) || length desc == 0))) [
      | inl q ↦ absurd (ground (arith, q, h))
      | inr q ↦ elim (Option-cases (get_entry id s.end_points)) [
        | inl k ↦ absurd (ground (arith, q, h, k))
        | inr (i, k) ↦ elim (Bool-cases (same (s.heap i).token token)) [
          | inr t ↦ absurd (ground (arith, q, h, k, t))
          | inl t ↦ elim (Option-cases (find fd s.sockets)) [
            | inl p ↦ absurd (ground (arith, q, h, k, t, p))
            | inr (pair, p) ↦ elim (Bool-cases ((s.heap i).mtls && not pair.valid)) [
              | inl m ↦ absurd (ground (arith, q, h, k, t, p, m))
              | inr m ↦
                  let found : some i ≡ some e = ground (arith, q, h, k, t, p, m) in
                  let at : i ≡ e = ground (arith, found) in
                  let fits : IsRegistered fd id token s i = record {
                    known = k;
                    token_right = t;
                    pair = pair;
                    there = p;
                    suits = λ y. ground (arith, m, y);
                  } in
                  rw (← at) fits
            ]
          ]
        ]
      ]
    ]

bind-IsSecured :
    (fd e : ℕ) (s : RttyServer) (pair : SocketPair)
    → find fd s.sockets ≡ some pair
    → Suits (s.heap e) pair
    → e < s.allocated
    → IsSecured s
    → IsSecured (record s { connected = assign fd e s.connected })
bind-IsSecured fd e s pair there suits made v = record {
  bound = λ i j q. elim (Bool-cases (fd == i)) [
    | inl h ↦
        let same_fd : fd ≡ i = ground arith in
        let same_point : some e ≡ some j =
          rw (← q) (sym (find-assign fd i e s.connected ∙ rw h refl)) in
        let at : e ≡ j = ground (arith, same_point) in
        let b : IsBound s.heap s.allocated s.sockets fd e = record {
          pair = pair;
          there = there;
          suits = suits;
          made = made;
        } in
        subst (λ x. IsBound s.heap s.allocated s.sockets x j) same_fd
          (subst (λ x. IsBound s.heap s.allocated s.sockets fd x) at b)
    | inr h ↦ v.bound i j (ground (arith, find-assign fd i e s.connected))
  ];
  known = v.known;
}

attach-IsSecured :
    (net : Net) (fd e : ℕ) (s : RttyServer) (pair : SocketPair)
    → find fd s.sockets ≡ some pair
    → Suits (s.heap e) pair
    → e < s.allocated
    → IsSecured s
    → IsSecured (attach net fd e s).0
unfolding attach
attach-IsSecured net fd e s pair there suits made v =
    let s0 : RttyServer = record s { connected = assign fd e s.connected } in
    let v0 = bind-IsSecured fd e s pair there suits made v in
    let s2 : RttyServer = record (modify e (λ x. record x { device_fd = some fd }) s) {
      connected = assign fd e (modify e (λ x. record x { device_fd = some fd }) s).connected;
    } in
    let v2 : IsSecured s2 =
      unfold modify in
      modify-IsSecured e (λ x. record x { device_fd = some fd }) s0 (λ x. refl) v0 in
    let ok : List ℕ = 0 ∷ 0 ∷ 4 ∷ 0 ∷ 79 ∷ 75 ∷ 0 ∷ [] in
    let s3 = (send_bytes net e (some fd) ok s2).0 in
    let v3 = send_bytes-IsSecured net e (some fd) ok s2 v2 in
    let s4 = modify e (λ x. record x { device_is_attached = true; device_socket = some fd }) s3 in
    let v4 =
      modify-IsSecured e (λ x. record x { device_is_attached = true; device_socket = some fd }) s3
        (λ x. refl) v3 in
    elim (Bool-cases (sent_all (send_bytes net e (some fd) ok s2).1 7)) [
      | inr q ↦ rw q v3
      | inl q ↦ elim (Bool-cases (has_client (s4.heap e).ws_socket)) [
        | inl c ↦ rw (q, c) (login-IsSecured net e (some fd) s4 v4)
        | inr c ↦ rw (q, c) v4
      ]
    ]

do_register-IsSecured :
    (net : Net) (fd : ℕ) (buffer : List ℕ) (s : RttyServer)
    → IsSecured s
    → IsSecured (do_register net fd buffer s).server
unfolding do_register
do_register-IsSecured net fd buffer s v =
    let id = (read_string buffer).0 in
    let b1 = (read_string buffer).1 in
    let desc = (read_string b1).0 in
    let token = (read_string (read_string b1).1).0 in
    elim (Option-cases (registration fd id desc token s)) [
      | inl q ↦ rw (q, do_register) v
      | inr (e, q) ↦
          let r = registration-IsRegistered fd id desc token s e q in
          rw (q, do_register)
            (attach-IsSecured net fd e s r.pair r.there r.suits (v.known id e r.known) v)
    ]

do_login-IsSecured :
    (net : Net) (fd : ℕ) (buffer : List ℕ) (s : RttyServer)
    → IsSecured s
    → IsSecured (do_login net fd buffer s).server
unfolding do_login
do_login-IsSecured net fd buffer s v = elim (Option-cases (with_client fd s)) [
  | inl q ↦ rw (q, do_login) v
  | inr (e, q) ↦ elim (Bool-cases (first_byte net buffer == 0)) [
    | inl z ↦
        let sid = first_byte net (drop 1 buffer) in
        let t = modify e (λ x. record x { sid = sid }) s in
        let w = modify-IsSecured e (λ x. record x { sid = sid }) s (λ x. refl) v in
        rw (q, z, do_login)
          (send_to_client-IsSecured net (t.heap e).ws_socket (login_message (first_byte net buffer))
            t w)
    | inr z ↦ rw (q, z, do_login) v
  ]
]

do_heartbeat-IsSecured :
    (net : Net) (fd : ℕ) (buffer : List ℕ) (s : RttyServer)
    → IsSecured s
    → IsSecured (do_heartbeat net fd buffer s).server
unfolding do_heartbeat
do_heartbeat-IsSecured net fd buffer s v = elim (Option-cases (find fd s.connected)) [
  | inl q ↦ rw (q, do_heartbeat) v
  | inr (e, q) ↦ rw (q, do_heartbeat) (send_bytes-IsSecured net e (some fd) (6 ∷ 0 ∷ 0 ∷ []) s v)
]

do_term_data-same :
    (fd msg_len : ℕ) (buffer : List ℕ) (s : RttyServer) (g : Gathered)
    → (do_term_data fd msg_len buffer s g).0.server ≡ s
unfolding do_term_data
do_term_data-same fd msg_len buffer s g = elim (Option-cases (with_client fd s)) [
  | inl q ↦ rw (q, do_term_data) refl
  | inr (e, q) ↦ rw (q, do_term_data) refl
]

-- Every message of a device, whatever it holds, keeps the bound sockets suitable.
pub dispatch-IsSecured :
    (net : Net) (fd type msg_len : ℕ) (buffer : List ℕ) (s : RttyServer) (g : Gathered)
    → IsSecured s
    → IsSecured (dispatch net fd type msg_len buffer s g).0.server
unfolding dispatch
dispatch-IsSecured net fd type msg_len buffer s g v = elim (Bool-cases (type == 0)) [
  | inl q ↦ rw q (do_register-IsSecured net fd buffer s v)
  | inr q ↦ elim (Bool-cases (type == 1)) [
    | inl r ↦ rw (q, r) (do_login-IsSecured net fd buffer s v)
    | inr r ↦ elim (Bool-cases (type == 2)) [
      | inl t ↦ rw (q, r, t) v
      | inr t ↦ elim (Bool-cases (type == 3)) [
        | inl u ↦ rw (q, r, t, u, do_term_data-same fd msg_len buffer s g) v
        | inr u ↦ elim (Bool-cases (type == 6)) [
          | inl w ↦ rw (q, r, t, u, w) (do_heartbeat-IsSecured net fd buffer s v)
          | inr w ↦ elim (Bool-cases (ltb type 11)) [
            | inl x ↦ rw (q, r, t, u, w, x) v
            | inr x ↦ rw (q, r, t, u, w, x) v
          ]
        ]
      ]
    ]
  ]
]
