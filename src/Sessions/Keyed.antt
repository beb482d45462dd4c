-- ===== src/Sessions/Keyed.antt =====
-- The registry of AP_WS_Server.cpp keeps each connection under its own session id and serial number.
use wlan_cloud_ucentralgw.Base.{
  ℕ, ◌≡◌, refl, none, some, [], ◌∷◌, ◌==◌, ltb, arith, inl, inr, Bool-cases, Option-cases,
}
use wlan_cloud_ucentralgw.Base.Dict.{Dict, find, assign, erase}
use wlan_cloud_ucentralgw.Sessions.{
  Server, Heap, Pointer, mac_hash, session_hash, find_session, find_device, put_session,
  drop_session, put_device, drop_device, update, add_connection, start_session, end_session,
  disconnect,
}
use wlan_cloud_ucentralgw.Sessions.Spec.{Call, adds, starts, ends, disconnects, step}
use wlan_cloud_ucentralgw.Sessions.Zombies.Sweeps.{Keyed}
use wlan_cloud_ucentralgw.Sessions.Zombies.Collect.{IsKeyed}

-- The pointer is null, or its connection has the key.
abbrev pub Fits : (ℕ → ℕ) → ℕ → Pointer → Type 0
Fits key k none = Unit {0}
Fits key k (some c) = key c ≡ k

module _ (key : ℕ → ℕ) where
  Keyed-cons :
      (k : ℕ) (p : Pointer) (m : Dict Pointer) → Fits key k p → Keyed key m → Keyed key ((k, p) ∷ m)
  Keyed-cons k none m f h = h
  Keyed-cons k (some c) m f h = (f, h)

  Keyed-tail : (k : ℕ) (p : Pointer) (m : Dict Pointer) → Keyed key ((k, p) ∷ m) → Keyed key m
  Keyed-tail k none m h = h
  Keyed-tail k (some c) m h = h.1

  Keyed-head : (k : ℕ) (p : Pointer) (m : Dict Pointer) → Keyed key ((k, p) ∷ m) → Fits key k p
  Keyed-head k none m h = tt
  Keyed-head k (some c) m h = h.0

  assign-Keyed :
      (k : ℕ) (p : Pointer) (m : Dict Pointer)
      → Fits key k p
      → Keyed key m
      → Keyed key (assign k p m)
  unfolding assign
  assign-Keyed k p [] f h = Keyed-cons k p [] f tt
  assign-Keyed k p ((j, q) ∷ m) f h =
      let rest = Keyed-tail j q m h in
      elim (Bool-cases (k == j)) [
        | inl t ↦ rw t (Keyed-cons k p m f rest)
        | inr t ↦ rw t (elim (Bool-cases (ltb k j)) [
          | inl u ↦ rw u (Keyed-cons k p _ f h)
          | inr u ↦ rw u (Keyed-cons j q _ (Keyed-head j q m h) (assign-Keyed k p m f rest))
        ])
      ]

  erase-Keyed : (k : ℕ) (m : Dict Pointer) → Keyed key m → Keyed key (erase k m)
  unfolding erase
  erase-Keyed k [] h = tt
  erase-Keyed k ((j, q) ∷ m) h =
      let rest = erase-Keyed k m (Keyed-tail j q m h) in
      elim (Bool-cases (j == k)) [
        | inl t ↦ rw t rest
        | inr t ↦ rw t (Keyed-cons j q _ (Keyed-head j q m h) rest)
      ]

  find-Fits :
      (k : ℕ) (p : Pointer) (m : Dict Pointer) → Keyed key m → find k m ≡ some p → Fits key k p
  unfolding find
  find-Fits k p [] h e = cc
  find-Fits k none ((j, q) ∷ m) h e = tt
  find-Fits k (some c) ((j, none) ∷ m) h e = elim (Bool-cases (j == k)) [
    | inl t ↦ ground arith
    | inr t ↦ find-Fits k (some c) m h (ground arith)
  ]
  find-Fits k (some c) ((j, some d) ∷ m) h e = elim (Bool-cases (j == k)) [
    | inl t ↦ ground arith
    | inr t ↦ find-Fits k (some c) m h.1 (ground arith)
  ]

  update-Keyed :
      (f : ℕ → Dict Pointer) (i : ℕ) (m : Dict Pointer)
      → ((h : ℕ) → Keyed key (f h))
      → Keyed key m
      → (h : ℕ) → Keyed key (update f i m h)
  unfolding update
  update-Keyed f i m all one h = elim (Bool-cases (i == h)) [
    | inl t ↦ rw t one
    | inr t ↦ rw t (all h)
  ]

module _ (heap : Heap) where
  abbrev id_of : ℕ → ℕ
  id_of c = (heap c).session_id

  abbrev sn_of : ℕ → ℕ
  sn_of c = (heap c).serial_number

  put_session-IsKeyed :
      (id : ℕ) (p : Pointer) (s : Server)
      → Fits id_of id p
      → IsKeyed heap s
      → IsKeyed heap (put_session id p s)
  unfolding put_session
  put_session-IsKeyed id p s f v = record {
    devices = v.devices;
    sessions =
        update-Keyed id_of s.sessions (session_hash id) _ v.sessions
          (assign-Keyed id_of id p _ f (v.sessions (session_hash id)));
  }

  drop_session-IsKeyed : (id : ℕ) (s : Server) → IsKeyed heap s → IsKeyed heap (drop_session id s)
  unfolding drop_session
  drop_session-IsKeyed id s v = record {
    devices = v.devices;
    sessions =
        update-Keyed id_of s.sessions (session_hash id) _ v.sessions
          (erase-Keyed id_of id _ (v.sessions (session_hash id)));
  }

  put_device-IsKeyed :
      (sn : ℕ) (p : Pointer) (s : Server)
      → Fits sn_of sn p
      → IsKeyed heap s
      → IsKeyed heap (put_device sn p s)
  unfolding put_device
  put_device-IsKeyed sn p s f v = record {
    devices =
        update-Keyed sn_of s.serial_numbers (mac_hash sn) _ v.devices
          (assign-Keyed sn_of sn p _ f (v.devices (mac_hash sn)));
    sessions = v.sessions;
  }

  drop_device-IsKeyed : (sn : ℕ) (s : Server) → IsKeyed heap s → IsKeyed heap (drop_device sn s)
  unfolding drop_device
  drop_device-IsKeyed sn s v = record {
    devices =
        update-Keyed sn_of s.serial_numbers (mac_hash sn) _ v.devices
          (erase-Keyed sn_of sn _ (v.devices (mac_hash sn)));
    sessions = v.sessions;
  }

  end_session-IsKeyed :
      (id sn : ℕ) (s : Server) → IsKeyed heap s → IsKeyed heap (end_session heap id sn s).0
  unfolding end_session
  end_session-IsKeyed id sn s v =
      let w = drop_session-IsKeyed id s v in
      elim (Option-cases (find_device (drop_session id s) sn)) [
        | inl e ↦ rw (e, end_session) w
        | inr (none, e) ↦ rw (e, end_session) w
        | inr (some c, e) ↦ elim (Bool-cases ((heap c).session_id == id)) [
          | inl t ↦ rw (e, t, end_session) (drop_device-IsKeyed sn _ w)
          | inr t ↦ rw (e, t, end_session) w
        ]
      ]

  disconnect-IsKeyed :
      (sn : ℕ) (s : Server) → IsKeyed heap s → IsKeyed heap (disconnect heap sn s).0
  unfolding disconnect
  disconnect-IsKeyed sn s v = elim (Option-cases (find_device s sn)) [
    | inl e ↦ rw (e, disconnect) v
    | inr (none, e) ↦ rw (e, disconnect) v
    | inr (some c, e) ↦
        rw (e, disconnect) (drop_session-IsKeyed (heap c).session_id _ (drop_device-IsKeyed sn s v))
  ]

  -- `StartSession` is called with the serial number of the session's connection.
  abbrev pub IsProper : Server → Call → Type 0
  IsProper s (starts id sn) = (p : Pointer) → find_session s id ≡ some p → Fits sn_of sn p
  IsProper s call = Unit {0}

  -- Each call keeps every connection under its own session id and serial number, if a session is
  -- only ever started with the serial number of its connection.
  pub step-IsKeyed :
      (call : Call) (s : Server)
      → IsProper s call
      → IsKeyed heap s
      → IsKeyed heap (step heap call s)
  unfolding step add_connection start_session
  step-IsKeyed (adds c) s h v = elim (Option-cases (find_session s (heap c).session_id)) [
    | inl e ↦ rw (e, add_connection) (put_session-IsKeyed (heap c).session_id (some c) s refl v)
    | inr (p, e) ↦ rw (e, add_connection) v
  ]
  step-IsKeyed (starts id sn) s h v = elim (Option-cases (find_session s id)) [
    | inl e ↦ rw (e, start_session) v
    | inr (p, e) ↦
        rw (e, start_session) (put_device-IsKeyed sn p _ (h p e) (drop_session-IsKeyed id s v))
  ]
  step-IsKeyed (ends id sn) s h v = end_session-IsKeyed id sn s v
  step-IsKeyed (disconnects sn) s h v = disconnect-IsKeyed sn s v
