-- ===== src/ApConnection/Admitted.antt =====
-- Whose frames a connection works on, and how it ends, AP_WS_Connection.cpp.
use mathlib.Core.Path.{subst}
use wlan_cloud_ucentralgw.Base.{
  ℕ, ◌≡◌, refl, sym, ap, ◌∙◌, Bool, true, false, not, ◌&&◌, Option, none, some, List, ◌==◌,
  if◌then◌else◌, arith, if_elim, length,
}
use wlan_cloud_ucentralgw.Base.Table.{Text}
use wlan_cloud_ucentralgw.Serials.{stoull}
use wlan_cloud_ucentralgw.ApConnection.Link.{
  no_certificate, ApConnection, World, emit, end_connection, valid_serial_number, is_sim, Peer,
  broken, insecure, anonymous, certified, admit, validated_device,
}
use wlan_cloud_ucentralgw.ApConnection.Frames.{
  Document, Received, process_incoming_frame, on_socket_readable,
}
use wlan_cloud_ucentralgw.ApConnection.Kept.{
  has_certificate, IsEnded, IsKept, IsKept-refl, end_connection-IsKept,
}
use wlan_cloud_ucentralgw.ApConnection.Kept.Frames.{process_incoming_frame-IsKept}

-- What a device that has been validated is known to be, where `sim` is whether simulated devices
-- are let in and `Shown` is what is known of the names on its certificates.
pub record IsAdmitted (Shown : Text → Type 0) (sim : Bool) (s : ApConnection) : Type 0 where
  pub validated : s.device_validated ≡ true
  pub name : valid_serial_number s.cn ≡ true
  pub shown : Shown s.cn
  pub certificate : has_certificate s.verified_certificate ≡ true
  pub real : (is_sim s.cn && not sim) ≡ false

pub record IsSound (Shown : Text → Type 0) (sim : Bool) (s : ApConnection) : Type 0 where
  pub ended : IsEnded s
  pub admitted : s.device_validated ≡ true → IsAdmitted Shown sim s

-- A certificate that is valid has a name of which `Shown` holds.
abbrev pub Shows : (Text → Type 0) → World → Peer → Type 0
Shows Shown w peer =
    (name : Text) (expiry : ℕ) → peer ≡ certified true name expiry → Shown (w.normal name)

pub IsKept-IsSound :
    {Shown : Text → Type 0} {sim : Bool} {s t : ApConnection}
    → IsKept s t
    → IsSound Shown sim s
    → IsSound Shown sim t
IsKept-IsSound {Shown} {sim} k v = record {
  ended = k.ended v.ended;
  admitted = λ h.
      let a = v.admitted (sym k.validated ∙ h) in
      record {
        validated = h;
        name = ap valid_serial_number k.cn ∙ a.name;
        shown = subst Shown (sym k.cn) a.shown;
        certificate = k.certificate ∙ a.certificate;
        real = ap (λ x. is_sim x && not sim) k.cn ∙ a.real;
      };
}

-- A device that has not been validated need not be known to be anything.
closed-IsSound :
    {Shown : Text → Type 0} {sim : Bool} {s : ApConnection}
    → s.device_validated ≡ false
    → IsEnded s
    → IsSound Shown sim s
closed-IsSound q v = record { ended = v; admitted = λ h. absurd (ground (arith, q, h)) }

end_connection-dead : (s : ApConnection) → (end_connection s).dead ≡ true
unfolding end_connection
end_connection-dead s = if_elim {A = ApConnection} (λ t. t.dead ≡ true) s.dead (λ q. q) (λ q. refl)

module _ (Shown : Text → Type 0) (sim : Bool) (w : World) (same_sim : w.sim_enabled ≡ sim) where
  -- What `ValidatedDevice` leaves.
  abbrev Validated : ApConnection × Bool → Type 0
  Validated r = IsSound Shown sim r.0 × (r.1 ≡ true → r.0.device_validated ≡ true)

  admit-Validated :
      (cn : Text) (sn expiry : ℕ) (s : ApConnection)
      → s.device_validated ≡ false
      → IsEnded s
      → valid_serial_number cn ≡ true
      → Shown cn
      → Validated (admit w cn sn expiry s)
  unfolding admit emit
  admit-Validated cn sn expiry s q v name at = go (is_sim cn) refl
    where
      go : (b : Bool) → is_sim cn ≡ b → Validated (admit w cn sn expiry s)
      go false r =
          rw (r, admit)
            (if_elim Validated (not (length cn == 0) && w.is_black_listed sn)
              (λ h. (closed-IsSound q v, λ e. absurd (ground (arith, e))))
              (λ h. (
                record {
                  ended = v;
                  admitted = λ e. record {
                    validated = refl;
                    name = name;
                    shown = at;
                    certificate = refl;
                    real = rw r refl;
                  };
                },
                λ e. refl,
              )))
      go true r =
          rw (r, admit)
            (if_elim Validated (not w.sim_enabled)
              (λ h. (closed-IsSound q v, λ e. absurd (ground (arith, e))))
              (λ m.
                if_elim Validated (not (length cn == 0) && w.is_black_listed sn)
                  (λ h. (closed-IsSound q v, λ e. absurd (ground (arith, e))))
                  (λ h. (
                    record {
                      ended = v;
                      admitted = λ e. record {
                        validated = refl;
                        name = name;
                        shown = at;
                        certificate = refl;
                        real = rw r (ap not (sym same_sim) ∙ m);
                      };
                    },
                    λ e. refl,
                  ))))

  validated_device-Validated :
      (peer : Peer) (s : ApConnection)
      → s.dead ≡ false
      → IsSound Shown sim s
      → Shows Shown w peer
      → Validated (validated_device w peer s)
  unfolding validated_device
  validated_device-Validated peer s alive v shows =
      if_elim Validated s.dead (λ q. absurd (ground (arith, alive, q)))
        (λ q. if_elim Validated s.device_validated (λ h. (v, λ e. h)) (λ h. go peer shows h))
    where
      refused : (t : ApConnection) → t.device_validated ≡ false → IsEnded t → Validated (t, false)
      refused t h e = (closed-IsSound h e, λ c. absurd (ground (arith, c)))

      ended : (t : ApConnection) → IsKept s t → Validated (end_connection t, false)
      ended t k =
          let e = end_connection-IsKept k in (IsKept-IsSound e v, λ c. absurd (ground (arith, c)))

      parsed :
          (cn : Text) (expiry : ℕ)
          → s.device_validated ≡ false
          → valid_serial_number cn ≡ true
          → Shown cn
          → (o : Option ℕ)
          → Validated (elim o [
            | none ↦ (end_connection (record s { cn = cn; serial_number = cn }), false)
            | some sn ↦ admit w cn sn expiry s
          ])
      parsed cn expiry h name at none =
          let u : ApConnection = record s { cn = cn; serial_number = cn } in
          let d = end_connection-IsKept (IsKept-refl u) in
          (closed-IsSound (d.validated ∙ h) (d.ended v.ended), λ c. absurd (ground (arith, c)))
      parsed cn expiry h name at (some sn) = admit-Validated cn sn expiry s h v.ended name at

      go :
          (peer : Peer)
          → Shows Shown w peer
          → s.device_validated ≡ false
          → Validated (elim peer [
            | broken ↦ (end_connection s, false)
            | insecure ↦ (s, false)
            | anonymous ↦ (record s { verified_certificate = no_certificate }, false)
            | certified valid name expiry ↦
                let cn = w.normal name in
                if not valid
                then (record s { verified_certificate = no_certificate }, false)
                else if not (valid_serial_number cn)
                then (record s { cn = cn }, false)
                else elim (stoull cn) [
                  | none ↦ (end_connection (record s { cn = cn; serial_number = cn }), false)
                  | some sn ↦ admit w cn sn expiry s
                ]
          ])
      go broken shows h = ended s (IsKept-refl s)
      go insecure shows h = refused s h v.ended
      go anonymous shows h = refused (record s { verified_certificate = no_certificate }) h v.ended
      go (certified valid name expiry) shows h =
          if_elim Validated (not valid)
            (λ q. refused (record s { verified_certificate = no_certificate }) h v.ended)
            (λ q.
              if_elim Validated (not (valid_serial_number (w.normal name)))
                (λ r. refused (record s { cn = w.normal name }) h v.ended)
                (λ r.
                  let found : valid ≡ true = ground (arith, q) in
                  parsed (w.normal name) expiry h (ground (arith, r))
                    (shows name expiry (ap (λ b. certified b name expiry) found))
                    (stoull (w.normal name))))

  -- What a reading leaves: a sound connection, and an admitted device unless the connection has ended.
  pub on_socket_readable-IsSound :
      (parse : List ℕ → Document) (peer : Peer) (r : Received) (s : ApConnection)
      → IsSound Shown sim s
      → Shows Shown w peer
      → let t = on_socket_readable w parse peer r s in
        IsSound Shown sim t × (t.dead ≡ false → IsAdmitted Shown sim t)
  unfolding on_socket_readable
  on_socket_readable-IsSound parse peer r s v shows =
      if_elim Read s.dead (λ q. (v, λ e. absurd (ground (arith, q, e)))) (λ q. alive q)
    where
      Read : ApConnection → Type 0
      Read t = IsSound Shown sim t × (t.dead ≡ false → IsAdmitted Shown sim t)

      ended : (t : ApConnection) → IsSound Shown sim t → Read (end_connection t)
      ended t e =
          let d = end_connection-dead t in
          (
            IsKept-IsSound (end_connection-IsKept (IsKept-refl t)) e,
            λ c. absurd (ground (arith, c, d)),
          )

      contacted : IsAdmitted Shown sim s → IsAdmitted Shown sim (record s { last_contact = w.now })
      contacted a = record {
        validated = a.validated;
        name = a.name;
        shown = a.shown;
        certificate = a.certificate;
        real = a.real;
      }

      alive :
          s.dead ≡ false
          → let t : ApConnection = record s { last_contact = w.now } in
            let u = validated_device w peer t in
            Read (
              if w.running
              then if u.1 then process_incoming_frame w parse r u.0 else end_connection u.0
              else end_connection t)
      alive q =
          let t : ApConnection = record s { last_contact = w.now } in
          let u = validated_device w peer t in
          let k : IsSound Shown sim t = record {
            ended = v.ended;
            admitted = λ h. contacted (v.admitted h);
          } in
          let p = validated_device-Validated peer t q k shows in
          let f = process_incoming_frame-IsKept w parse r u.0 in
          if_elim Read w.running
            (λ h.
              if_elim Read u.1
                (λ g. (
                  IsKept-IsSound f p.0,
                  λ e. (IsKept-IsSound f p.0).admitted (f.validated ∙ p.1 g),
                ))
                (λ g. ended u.0 p.0))
            (λ h. ended t k)
