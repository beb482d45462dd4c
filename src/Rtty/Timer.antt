-- ===== src/Rtty/Timer.antt =====
-- The timer of rttys/RTTYS_server.cpp removes the sessions that were never completed.
use wlan_cloud_ucentralgw.Base.{
  ℕ, ◌≡◌, refl, sym, ap, ◌∙◌, Bool, true, false, ◌&&◌, ◌||◌, Option, none, some, [], ◌∷◌, ◌==◌,
  if◌then◌else◌, arith, inl, inr, Bool-cases, Option-cases,
}
use wlan_cloud_ucentralgw.Base.Table.{
  Text, Table, same, same_sound, get_entry, drop_entry, get_entry-drop_entry,
}
use wlan_cloud_ucentralgw.Rtty.{
  EndPoint, ClientSocket, no_client, closed_client, open_client, RttyServer, modify, close_client,
  remove_device, end_connection,
}
use wlan_cloud_ucentralgw.Rtty.Browser.{is_stale, sweep, on_timer}

-- What ending a session leaves of the end points' fields that the timer reads.
pub record IsKept (heap next : ℕ → EndPoint) : Type 0 where
  pub stale : (now e : ℕ) → is_stale now (next e) ≡ is_stale now (heap e)
  pub id : (e : ℕ) → (next e).id ≡ (heap e).id

close_client-IsKept : (e : ℕ) (s : RttyServer) → IsKept s.heap (close_client e s).heap
unfolding close_client modify
close_client-IsKept e s = go (s.heap e).ws_socket refl
  where
    go : (c : ClientSocket) → (s.heap e).ws_socket ≡ c → IsKept s.heap (close_client e s).heap
    go no_client q = rw (q, close_client) (record { stale = λ now i. refl; id = λ i. refl })
    go closed_client q = rw (q, close_client) (record { stale = λ now i. refl; id = λ i. refl })
    go (open_client fd) q =
        rw (q, close_client)
          (record {
            stale = λ now i. elim (Bool-cases (e == i)) [ inl h ↦ rw h refl | inr h ↦ rw h refl ];
            id = λ i. elim (Bool-cases (e == i)) [ inl h ↦ rw h refl | inr h ↦ rw h refl ];
          })

end_connection-IsKept : (e : ℕ) (s : RttyServer) → IsKept s.heap (end_connection e s).heap
unfolding end_connection remove_device
end_connection-IsKept e s = go (s.heap e).device_fd refl
  where
    go : (o : Option ℕ) → (s.heap e).device_fd ≡ o → IsKept s.heap (end_connection e s).heap
    go none q = rw (q, end_connection) (close_client-IsKept e s)
    go (some fd) q = rw (q, end_connection) (close_client-IsKept e (remove_device fd s))

close_client-points : (e : ℕ) (s : RttyServer) → (close_client e s).end_points ≡ s.end_points
unfolding close_client modify
close_client-points e s = go (s.heap e).ws_socket refl
  where
    go :
        (c : ClientSocket) → (s.heap e).ws_socket ≡ c → (close_client e s).end_points ≡ s.end_points
    go no_client q = rw (q, close_client) refl
    go closed_client q = rw (q, close_client) refl
    go (open_client fd) q = rw (q, close_client) refl

end_connection-points :
    (e : ℕ) (s : RttyServer)
    → (end_connection e s).end_points ≡ drop_entry (s.heap e).id s.end_points
unfolding end_connection remove_device
end_connection-points e s = go (s.heap e).device_fd refl
  where
    go :
        (o : Option ℕ)
        → (s.heap e).device_fd ≡ o
        → (end_connection e s).end_points ≡ drop_entry (s.heap e).id s.end_points
    go none q = rw (q, end_connection) (ap (drop_entry (s.heap e).id) (close_client-points e s))
    go (some fd) q =
        rw (q, end_connection)
          (ap (drop_entry (s.heap e).id) (close_client-points e (remove_device fd s)))

-- Whether the table has a stale end point under the id.
stale_under : ℕ → (ℕ → EndPoint) → Text → Table ℕ → Bool
stale_under now heap id [] = false
stale_under now heap id ((i, e) ∷ points) =
    (same i id && is_stale now (heap e)) || stale_under now heap id points

stale_under-kept :
    (now : ℕ) (heap next : ℕ → EndPoint) (id : Text) (points : Table ℕ)
    → IsKept heap next
    → stale_under now next id points ≡ stale_under now heap id points
unfolding stale_under
stale_under-kept now heap next id [] k = refl
stale_under-kept now heap next id ((i, e) ∷ points) k =
    rw (k.stale now e, stale_under-kept now heap next id points k) refl

-- Every end point stands under its own id.
abbrev pub AllNamed : (ℕ → EndPoint) → Table ℕ → Type 0
AllNamed heap [] = Unit {0}
AllNamed heap ((i, e) ∷ points) = ((heap e).id ≡ i) × AllNamed heap points

AllNamed-kept :
    (heap next : ℕ → EndPoint) (points : Table ℕ)
    → IsKept heap next
    → AllNamed heap points
    → AllNamed next points
AllNamed-kept heap next [] k h = tt
AllNamed-kept heap next ((i, e) ∷ points) k h = (k.id e ∙ h.0, AllNamed-kept heap next points k h.1)

sweep-find :
    (now : ℕ) (id : Text) (points : Table ℕ) (s : RttyServer)
    → AllNamed s.heap points
    → get_entry id (sweep now points s).end_points
      ≡ (if stale_under now s.heap id points then none else get_entry id s.end_points)
unfolding sweep stale_under
sweep-find now id [] s h = refl
sweep-find now id ((i, e) ∷ points) s h =
    let t = end_connection e s in
    let k = end_connection-IsKept e s in
    let ended = sweep-find now id points t (AllNamed-kept s.heap t.heap points k h.1) in
    let under = stale_under-kept now s.heap t.heap id points k in
    let dropped : get_entry id t.end_points
        ≡ (if same i id then none else get_entry id s.end_points) =
      ap (get_entry id) (end_connection-points e s)
      ∙ get_entry-drop_entry (s.heap e).id id s.end_points
      ∙ ap (λ x. if same x id then none else get_entry id s.end_points) h.0 in
    elim (Bool-cases (is_stale now (s.heap e))) [
      | inl q ↦ rw q (ended ∙ ground (arith, under, dropped))
      | inr q ↦ rw q (sweep-find now id points s h.1 ∙ ground arith)
    ]

-- Each end point is the one that its id looks up in the whole table.
abbrev pub AllFirst : Table ℕ → Table ℕ → Type 0
AllFirst whole [] = Unit {0}
AllFirst whole ((i, e) ∷ points) = (get_entry i whole ≡ some e) × AllFirst whole points

none_under :
    (now : ℕ) (heap : ℕ → EndPoint) (id : Text) (points : Table ℕ)
    → get_entry id points ≡ none
    → stale_under now heap id points ≡ false
unfolding stale_under get_entry
none_under now heap id [] h = refl
none_under now heap id ((i, e) ∷ points) h = elim (Bool-cases (same i id)) [
  | inl q ↦ absurd (ground (arith, q, h))
  | inr q ↦ rw q (none_under now heap id points (ground (arith, q)))
]

found_under :
    (now : ℕ) (heap : ℕ → EndPoint) (id : Text) (e : ℕ) (points : Table ℕ)
    → get_entry id points ≡ some e
    → is_stale now (heap e) ≡ true
    → stale_under now heap id points ≡ true
unfolding stale_under get_entry
found_under now heap id e [] h old = absurd (ground (arith, h))
found_under now heap id e ((i, x) ∷ points) h old = elim (Bool-cases (same i id)) [
  | inl q ↦
      let here : some x ≡ some e = ground (arith, q, h) in
      let at : x ≡ e = ground (arith, here) in rw (q, at) (rw old refl)
  | inr q ↦ rw q (found_under now heap id e points (ground (arith, q)) old)
]

young_under :
    (now : ℕ) (heap : ℕ → EndPoint) (id : Text) (e : ℕ) (whole points : Table ℕ)
    → get_entry id whole ≡ some e
    → is_stale now (heap e) ≡ false
    → AllFirst whole points
    → stale_under now heap id points ≡ false
unfolding stale_under
young_under now heap id e whole [] h young first = refl
young_under now heap id e whole ((i, x) ∷ points) h young first =
    let rest = young_under now heap id e whole points h young first.1 in
    elim (Bool-cases (same i id)) [
      | inl q ↦
          let here : some x ≡ some e =
            sym first.0 ∙ ap (λ k. get_entry k whole) (same_sound i id q) ∙ h in
          let at : x ≡ e = ground (arith, here) in rw (q, at, young) rest
      | inr q ↦ rw q rest
    ]

abbrev pub unless_stale : ℕ → (ℕ → EndPoint) → Option ℕ → Option ℕ
unless_stale now heap none = none
unless_stale now heap (some e) = if is_stale now (heap e) then none else some e

-- Let the end points stand under their own ids, each id once. After the timer has run, exactly the
-- sessions are gone that were made more than two minutes ago and in which device and browser have
-- not come together; every other id looks up the end point that it did.
pub on_timer-find :
    (now : ℕ) (s : RttyServer)
    → AllNamed s.heap s.end_points
    → AllFirst s.end_points s.end_points
    → (id : Text)
    → get_entry id (on_timer now s).end_points ≡ unless_stale now s.heap (get_entry id s.end_points)
unfolding on_timer
on_timer-find now s named first id =
    sweep-find now id s.end_points s named ∙ elim (Option-cases (get_entry id s.end_points)) [
      | inl q ↦ rw (q, none_under now s.heap id s.end_points q) refl
      | inr (e, q) ↦ elim (Bool-cases (is_stale now (s.heap e))) [
        | inl old ↦ rw (found_under now s.heap id e s.end_points q old, q) (rw old refl)
        | inr young ↦
            rw (young_under now s.heap id e s.end_points s.end_points q young first, q)
              (rw young refl)
      ]
    ]
