-- ===== src/Rtty/Secured.antt =====
-- Which sockets rttys/RTTYS_server.cpp binds to end points.
pub mod Handlers
pub mod Readings
pub mod Reached
use wlan_cloud_ucentralgw.Base.{
  ℕ, zero, suc, ◌+◌, ◌%◌, ◌^◌, ◌≤◌, ◌<◌, ◌≡◌, refl, sym, ap, ◌∙◌, Bool, true, false, not, ◌&&◌,
  ◌||◌, Option, none, some, List, [], ◌∷◌, ◌++◌, ◌==◌, ltb, if◌then◌else◌, arith, inl, inr,
  Bool-cases, Option-cases, length,
}
use wlan_cloud_ucentralgw.Base.Dict.{Dict, find, assign, erase, find-assign, find-erase}
use wlan_cloud_ucentralgw.Base.Table.{
  Text, Table, same, get_entry, put_entry, drop_entry, get_entry-put_entry, get_entry-drop_entry,
}
use wlan_cloud_ucentralgw.Rtty.{
  EndPoint, SocketPair, ClientSocket, ClientMessage, no_client, closed_client, open_client,
  RttyServer, Net, modify, send_bytes, send_to_client, has_client, close_client, remove_device,
  end_connection, end_socket, add_new_socket, create_end_point,
}

-- A certificate that the end point asks for is valid.
abbrev pub Suits : EndPoint → SocketPair → Type 0
Suits x p = x.mtls ≡ true → p.valid ≡ true

-- The device's socket is open, and suits the end point that it is bound to.
pub record IsBound (heap : ℕ → EndPoint) (allocated : ℕ) (sockets : Dict SocketPair) (fd e : ℕ)
    : Type 0 where
  pub pair : SocketPair
  pub there : find fd sockets ≡ some pair
  pub suits : Suits (heap e) pair
  pub made : e < allocated

-- So is every socket that is bound, and the end points are those that have been made.
pub record AllSecured (heap : ℕ → EndPoint) (allocated : ℕ) (connected : Dict ℕ)
    (sockets : Dict SocketPair) (end_points : Table ℕ) : Type 0 where
  pub bound : (fd e : ℕ) → find fd connected ≡ some e → IsBound heap allocated sockets fd e
  pub known : (id : Text) (e : ℕ) → get_entry id end_points ≡ some e → e < allocated

abbrev pub IsSecured : RttyServer → Type 0
IsSecured s = AllSecured s.heap s.allocated s.connected s.sockets s.end_points

modify-mtls :
    (e : ℕ) (f : EndPoint → EndPoint) (s : RttyServer)
    → ((x : EndPoint) → (f x).mtls ≡ x.mtls)
    → (i : ℕ) → ((modify e f s).heap i).mtls ≡ (s.heap i).mtls
unfolding modify
modify-mtls e f s h i = elim (Bool-cases (e == i)) [
  | inl q ↦ rw q (h (s.heap i))
  | inr q ↦ rw q refl
]

pub modify-IsSecured :
    (e : ℕ) (f : EndPoint → EndPoint) (s : RttyServer)
    → ((x : EndPoint) → (f x).mtls ≡ x.mtls)
    → IsSecured s
    → IsSecured (modify e f s)
modify-IsSecured e f s h v =
    let keeps = modify-mtls e f s h in
    unfold modify in
    record {
      bound = λ fd i q.
          let b = v.bound fd i q in
          record {
            pair = b.pair;
            there = b.there;
            suits = λ m. b.suits (sym (keeps i) ∙ m);
            made = b.made;
          };
      known = v.known;
    }

pub send_bytes-IsSecured :
    (net : Net) (e : ℕ) (fd : Option ℕ) (bytes : List ℕ) (s : RttyServer)
    → IsSecured s
    → IsSecured (send_bytes net e fd bytes s).0
unfolding send_bytes
send_bytes-IsSecured net e none bytes s v = modify-IsSecured e _ s (λ x. refl) v
send_bytes-IsSecured net e (some fd) bytes s v = modify-IsSecured e _ s (λ x. refl) v

pub send_to_client-IsSecured :
    (net : Net) (c : ClientSocket) (message : ClientMessage) (s : RttyServer)
    → IsSecured s
    → IsSecured (send_to_client net c message s).0
unfolding send_to_client
send_to_client-IsSecured net no_client message s v = v
send_to_client-IsSecured net closed_client message s v = v
send_to_client-IsSecured net (open_client fd) message s v =
    elim (Bool-cases (net.client_sends fd message)) [ inl e ↦ rw e v | inr e ↦ rw e v ]

remove_device-IsSecured : (fd : ℕ) (s : RttyServer) → IsSecured s → IsSecured (remove_device fd s)
unfolding remove_device
remove_device-IsSecured fd s v = record {
  bound = λ i e q.
      let apart : (fd == i) ≡ false = ground (arith, find-erase fd i s.connected) in
      let b = v.bound i e (ground (arith, find-erase fd i s.connected)) in
      record {
        pair = b.pair;
        there = find-erase fd i s.sockets ∙ rw apart b.there;
        suits = b.suits;
        made = b.made;
      };
  known = v.known;
}

close_client-IsSecured : (e : ℕ) (s : RttyServer) → IsSecured s → IsSecured (close_client e s)
unfolding close_client
close_client-IsSecured e s v = go (s.heap e).ws_socket refl
  where
    go : (c : ClientSocket) → (s.heap e).ws_socket ≡ c → IsSecured (close_client e s)
    go no_client q = rw (q, close_client) v
    go closed_client q = rw (q, close_client) v
    go (open_client fd) q =
        rw (q, close_client)
          (modify-IsSecured e _ (record s { clients = erase fd s.clients }) (λ x. refl) v)

drop_point-IsSecured :
    (id : Text) (s : RttyServer)
    → IsSecured s
    → IsSecured (record s { end_points = drop_entry id s.end_points })
drop_point-IsSecured id s v = record {
  bound = v.bound;
  known = λ j e q. v.known j e (ground (arith, get_entry-drop_entry id j s.end_points));
}

pub end_connection-IsSecured :
    (e : ℕ) (s : RttyServer) → IsSecured s → IsSecured (end_connection e s)
unfolding end_connection
end_connection-IsSecured e s v = go (s.heap e).device_fd refl
  where
    go : (o : Option ℕ) → (s.heap e).device_fd ≡ o → IsSecured (end_connection e s)
    go none q =
        rw (q, end_connection)
          (drop_point-IsSecured (s.heap e).id (close_client e s) (close_client-IsSecured e s v))
    go (some fd) q =
        rw (q, end_connection)
          (drop_point-IsSecured (s.heap e).id (close_client e (remove_device fd s))
            (close_client-IsSecured e (remove_device fd s) (remove_device-IsSecured fd s v)))

pub end_socket-IsSecured : (fd : ℕ) (s : RttyServer) → IsSecured s → IsSecured (end_socket fd s)
unfolding end_socket
end_socket-IsSecured fd s v = elim (Option-cases (find fd s.connected)) [
  | inl q ↦ rw (q, end_socket) (remove_device-IsSecured fd s v)
  | inr (e, q) ↦
      rw (q, end_socket)
        (drop_point-IsSecured (s.heap e).id (close_client e (remove_device fd s))
          (close_client-IsSecured e (remove_device fd s) (remove_device-IsSecured fd s v)))
]

pub add_new_socket-IsSecured :
    (fd : ℕ) (valid : Bool) (s : RttyServer)
    → find fd s.sockets ≡ none
    → IsSecured s
    → IsSecured (add_new_socket fd valid s)
unfolding add_new_socket
add_new_socket-IsSecured fd valid s free v = record {
  bound = λ i e q.
      let b = v.bound i e q in
      let apart : (fd == i) ≡ false = other i b.pair b.there in
      record {
        pair = b.pair;
        there = find-assign fd i _ s.sockets ∙ rw apart b.there;
        suits = b.suits;
        made = b.made;
      };
  known = v.known;
}
  where
    other : (i : ℕ) (p : SocketPair) → find i s.sockets ≡ some p → (fd == i) ≡ false
    other i p q = elim (Bool-cases (fd == i)) [
      | inl h ↦
          let same_fd : fd ≡ i = ground arith in
          let clash : some p ≡ none = sym q ∙ ap (λ k. find k s.sockets) (sym same_fd) ∙ free in
          absurd (ground (arith, clash))
      | inr h ↦ h
    ]

pub create_end_point-IsSecured :
    (locked : Bool) (now : ℕ) (id token user serial : Text) (mtls : Bool) (s : RttyServer)
    → IsSecured s
    → IsSecured (create_end_point locked now id token user serial mtls s).0
unfolding create_end_point
create_end_point-IsSecured false now id token user serial mtls s v = v
create_end_point-IsSecured true now id token user serial mtls s v =
    elim (Bool-cases (
      if s.max_concurrent_sessions == 0
      then false
      else length s.end_points == s.max_concurrent_sessions)) [
        | inl full ↦ rw full v
        | inr room ↦ rw room (record {
          bound = λ fd e q.
              let b = v.bound fd e q in
              let apart : (s.allocated == e) ≡ false = ground (arith, b.made) in
              record {
                pair = b.pair;
                there = b.there;
                suits = rw apart b.suits;
                made = omega (arith, b.made);
              };
          known = λ j e q. old j e q;
        })
      ]
  where
    old :
        (j : Text) (e : ℕ)
        → get_entry j (put_entry id s.allocated s.end_points) ≡ some e
        → e < suc s.allocated
    old j e q = elim (Bool-cases (same id j)) [
      | inl h ↦ ground (arith, get_entry-put_entry id j s.allocated s.end_points)
      | inr h ↦
          let before =
            v.known j e (ground (arith, get_entry-put_entry id j s.allocated s.end_points)) in
          omega (arith, before)
    ]
