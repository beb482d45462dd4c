-- ===== src/Sessions/Zombies/Collect.antt =====
-- A round of the garbage collector of AP_WS_Server.cpp followed by `CleanupSessions`.
use wlan_cloud_ucentralgw.Base.{
  ℕ, ◌+◌, ◌-◌, ◌%◌, ◌^◌, ◌<◌, ◌≡◌, refl, ap, Bool, true, false, some, arith, inl, inr, Bool-cases,
}
use wlan_cloud_ucentralgw.Base.Dict.{find}
use wlan_cloud_ucentralgw.Sessions.{
  Server, Heap, Pointer, mac_hash, session_hash, find_session, find_device,
}
use wlan_cloud_ucentralgw.Sessions.Zombies.{
  Passes, is_zombie, device_pass, session_pass, connected_time, zombie_run, drain, hash_max,
}
use wlan_cloud_ucentralgw.Sessions.Zombies.Sweeps.{
  Keyed, Marked, sweep_maps-Marked, sweep_maps-grows,
}
use wlan_cloud_ucentralgw.Sessions.Zombies.Drain.{
  drain-removes_device, drain-unbinds, drain-removes_session, drain-ends,
}

-- Each device stands under its connection's serial number, each session under its connection's id.
pub record IsKeyed (heap : Heap) (s : Server) : Type 0 where
  pub devices : (h : ℕ) → Keyed (λ c. (heap c).serial_number) (s.serial_numbers h)
  pub sessions : (h : ℕ) → Keyed (λ c. (heap c).session_id) (s.sessions h)

mac_hash-lt : (sn : ℕ) → mac_hash sn < hash_max
unfolding mac_hash
mac_hash-lt sn = omega arith

session_hash-lt : (id : ℕ) → session_hash id < hash_max
unfolding session_hash
session_hash-lt id = omega arith

module _ (heap : Heap) (now : ℕ) (clock clock' : ℕ → ℕ) (locked locked' : ℕ → Bool)
    (s : Server) where
  first : Passes
  first = device_pass heap clock locked s

  second : Passes
  unfolding first
  second = session_pass heap clock' locked' first.queue s

  swept : Server
  unfolding second
  swept = zombie_run heap now clock locked clock' locked' s

  -- The bodies of the round, where it is due.
  swept-fields :
      60 < (now + 2 ^ 64 - s.last_zombie_run) % 2 ^ 64
      → (swept.serial_numbers ≡ first.maps)
        × (swept.sessions ≡ second.maps)
        × (swept.cleanup_sessions ≡ second.queue)
  unfolding swept zombie_run
  swept-fields due = (ground arith, ground arith, ground arith)

  -- A binding that is left is bound to a live connection or stands in the queue.
  swept-device :
      IsKeyed heap s
      → (sn : ℕ) (p : Pointer) → locked (mac_hash sn) ≡ true
      → find sn (first.maps (mac_hash sn)) ≡ some p
      → Marked heap s.session_time_out clock (λ c. (heap c).serial_number) sn p second.queue
  unfolding second device_pass session_pass
  swept-device keyed sn p l e =
      let (c, f, g, m) =
        sweep_maps-Marked heap s.session_time_out clock (connected_time heap clock)
          (λ c. (heap c).serial_number) locked hash_max
          (record { maps = s.serial_numbers; queue = s.cleanup_sessions; total = 0 }) (mac_hash sn)
          sn p (mac_hash-lt sn) l (keyed.devices (mac_hash sn)) e in
      (
        c,
        f,
        g,
        λ z.
            sweep_maps-grows heap s.session_time_out clock' (λ c. 1) locked' hash_max 0 _ _ _ (m z),
      )

  swept-session :
      IsKeyed heap s
      → (id : ℕ) (p : Pointer) → locked' (session_hash id) ≡ true
      → find id (second.maps (session_hash id)) ≡ some p
      → Marked heap s.session_time_out clock' (λ c. (heap c).session_id) id p second.queue
  unfolding second session_pass
  swept-session keyed id p l e =
      sweep_maps-Marked heap s.session_time_out clock' (λ c. 1) (λ c. (heap c).session_id) locked'
        hash_max (record { maps = s.sessions; queue = first.queue; total = 0 }) (session_hash id) id
        p (session_hash-lt id) l (keyed.sessions (session_hash id)) e

  -- Let a minute have gone by since the last round, and let the keys fit the connections. After the
  -- round and the clean-up, a device that is still bound, in a map whose lock was got, is bound to
  -- a connection that was neither dead nor idle when it was looked at.
  pub collect-devices :
      60 < (now + 2 ^ 64 - s.last_zombie_run) % 2 ^ 64
      → IsKeyed heap s
      → (sn : ℕ) (p : Pointer) → locked (mac_hash sn) ≡ true
      → find_device (drain heap (zombie_run heap now clock locked clock' locked' s)) sn ≡ some p
      → (c : ℕ) × (p ≡ some c) × (is_zombie s.session_time_out (clock c) (heap c) ≡ false)
  unfolding drain swept find_device
  collect-devices due keyed sn p l e =
      let (maps, _, queue) = swept-fields due in
      let before = drain-removes_device heap swept.cleanup_sessions sn p swept e in
      let (c, f, g, m) =
        swept-device keyed sn p l (rw (← ap (λ x. find sn (x (mac_hash sn))) maps) before) in
      (
        c,
        f,
        elim (Bool-cases (is_zombie s.session_time_out (clock c) (heap c))) [
          | inl z ↦ absurd (
              drain-unbinds heap swept.cleanup_sessions (heap c).session_id sn c swept
                (rw (queue, ← g) (m z)) refl (rw f at e))
          | inr z ↦ z
        ],
      )

  -- The same of a session that no device has taken over yet.
  pub collect-sessions :
      60 < (now + 2 ^ 64 - s.last_zombie_run) % 2 ^ 64
      → IsKeyed heap s
      → (id : ℕ) (p : Pointer) → locked' (session_hash id) ≡ true
      → find_session (drain heap (zombie_run heap now clock locked clock' locked' s)) id ≡ some p
      → (c : ℕ) × (p ≡ some c) × (is_zombie s.session_time_out (clock' c) (heap c) ≡ false)
  unfolding drain swept find_session
  collect-sessions due keyed id p l e =
      let (_, maps, queue) = swept-fields due in
      let before = drain-removes_session heap swept.cleanup_sessions id p swept e in
      let (c, f, g, m) =
        swept-session keyed id p l (rw (← ap (λ x. find id (x (session_hash id))) maps) before) in
      (
        c,
        f,
        elim (Bool-cases (is_zombie s.session_time_out (clock' c) (heap c))) [
          | inl z ↦ absurd (
              drain-ends heap swept.cleanup_sessions id (heap c).serial_number p swept
                (rw (queue, ← g) (m z)) e)
          | inr z ↦ z
        ],
      )
