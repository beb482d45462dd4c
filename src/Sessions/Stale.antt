-- ===== src/Sessions/Stale.antt =====
-- A device that connects anew before its earlier session is ended, AP_WS_Server.cpp.
use wlan_cloud_ucentralgw.Base.{
  ℕ, ◌≡◌, ◌≢◌, none, some, ◌==◌, if◌then◌else◌, List, [], ◌∷◌, arith, inl, inr, Option-cases, All,
}
use wlan_cloud_ucentralgw.Sessions.{
  Server, Heap, find_session, find_device, add_connection, start_session, end_session, disconnect,
  put_session, drop_session, drop_device,
}
use wlan_cloud_ucentralgw.Sessions.Lookup.{
  find_session-put, find_session-drop, find_device-put, find_device-drop, find_device-put_session,
  find_device-drop_session, find_session-drop_device,
}
use wlan_cloud_ucentralgw.Sessions.Spec.{Call, adds, starts, ends, disconnects, step, run}

-- A call that does not concern the device `sn` in the session `id`.
abbrev pub Spares : ℕ → ℕ → Call → Type 0
Spares id sn (adds c) = Unit {0}
Spares id sn (starts id' sn') = sn' ≢ sn
Spares id sn (ends id' sn') = id' ≢ id
Spares id sn (disconnects sn') = sn' ≢ sn

module _ (heap : Heap) (id sn c : ℕ) (own : (heap c).session_id ≡ id) where
  end-spares :
      (id' sn' : ℕ) (s : Server)
      → id' ≢ id
      → find_device s sn ≡ some (some c)
      → find_device (end_session heap id' sn' s).0 sn ≡ some (some c)
  unfolding end_session
  end-spares id' sn' s h e =
      let t = drop_session id' s in
      ground (
        arith,
        find_device-drop t sn' sn,
        find_device-drop_session s id' sn,
        find_device-drop_session s id' sn',
        own,
      )

  step-Spares :
      (call : Call) (s : Server)
      → Spares id sn call
      → find_device s sn ≡ some (some c)
      → find_device (step heap call s) sn ≡ some (some c)
  unfolding step add_connection start_session disconnect
  step-Spares (adds c') s h e =
      let id' = (heap c').session_id in ground (arith, find_device-put_session s id' sn (some c'))
  step-Spares (starts id' sn') s h e = elim (Option-cases (find_session s id')) [
    | inl g ↦ ground arith
    | inr (p, g) ↦
        ground
          (arith, find_device-put (drop_session id' s) sn' sn p, find_device-drop_session s id' sn)
  ]
  step-Spares (ends id' sn') s h e = end-spares id' sn' s h e
  step-Spares (disconnects sn') s h e = elim (Option-cases (find_device s sn')) [
    | inl g ↦ ground arith
    | inr (none, g) ↦ ground arith
    | inr (some c', g) ↦
        let id' = (heap c').session_id in
        ground
          (arith, find_device-drop s sn' sn, find_device-drop_session (drop_device sn' s) id' sn)
  ]

  run-Spares :
      (cs : List Call) (s : Server)
      → All (Spares id sn) cs
      → find_device s sn ≡ some (some c)
      → find_device (run heap cs s) sn ≡ some (some c)
  unfolding run
  run-Spares [] s h e = e
  run-Spares (call ∷ cs) s h e = run-Spares cs _ h.1 (step-Spares call s h.0 e)

  -- Let the session `id` of the connection `c` be unknown. When `c` is added and started for the
  -- device `sn`, whoever was bound to the device before, `c` stays bound to it through every later
  -- history in which nobody starts another session for the device, disconnects it, or ends the
  -- session `id` itself; calls that end the device's earlier sessions are among these.
  pub start-survives :
      (cs : List Call) (s : Server)
      → find_session s id ≡ none
      → All (Spares id sn) cs
      → find_device (run heap (adds c ∷ starts id sn ∷ cs) s) sn ≡ some (some c)
  unfolding run step add_connection start_session
  start-survives cs s new h = run-Spares cs _ h (
      ground (
        arith,
        own,
        find_session-put s id id (some c),
        find_device-put (drop_session id (put_session id (some c) s)) sn sn (some c),
      ))

  -- `EndSession` erases the session it is called for and no other one. It says whether that is the
  -- session of the connection that is bound to the device. If it is, the device is erased too, and
  -- no other one; if not, every device stays bound as it was.
  pub end_session-cases :
      (id' : ℕ) (s : Server)
      → find_device s sn ≡ some (some c)
      → let r = end_session heap id' sn s in
        (r.1 ≡ (id == id'))
        × ((j : ℕ) → find_session r.0 j ≡ (if id' == j then none else find_session s j))
        × ((j : ℕ)
            → find_device r.0 j
              ≡ (if id == id' then if sn == j then none else find_device s j else find_device s j))
  unfolding end_session
  end_session-cases id' s e =
      let t = drop_session id' s in
      (
        ground (arith, own, find_device-drop_session s id' sn),
        λ j. ground (
          arith,
          own,
          find_device-drop_session s id' sn,
          find_session-drop s id' j,
          find_session-drop_device t sn j,
        ),
        λ j. ground (
          arith,
          own,
          find_device-drop_session s id' sn,
          find_device-drop_session s id' j,
          find_device-drop t sn j,
        ),
      )
