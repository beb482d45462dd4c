-- ===== src/Sessions/Zombies/Drain.antt =====
-- `CleanupSessions` of AP_WS_Server.cpp only takes bindings away, and takes those that are queued.
use wlan_cloud_ucentralgw.Base.{ℕ, ◌≡◌, refl, ◌≢◌, some, List, [], ◌∷◌, arith, inl, inr}
use wlan_cloud_ucentralgw.Sessions.{
  Server, Heap, Pointer, find_session, find_device, end_session, drop_session,
}
use wlan_cloud_ucentralgw.Sessions.Lookup.{
  find_session-drop, find_device-drop, find_device-drop_session, find_session-drop_device,
}
use wlan_cloud_ucentralgw.Sessions.Zombies.{drain_queue}
use wlan_cloud_ucentralgw.Sessions.Zombies.Sweeps.{Queued}

module _ (heap : Heap) where
  end-removes_device :
      (id sn j : ℕ) (p : Pointer) (s : Server)
      → find_device (end_session heap id sn s).0 j ≡ some p
      → find_device s j ≡ some p
  unfolding end_session
  end-removes_device id sn j p s e =
      let t = drop_session id s in
      ground (
        arith,
        find_device-drop t sn j,
        find_device-drop_session s id j,
        find_device-drop_session s id sn,
      )

  end-removes_session :
      (id sn j : ℕ) (p : Pointer) (s : Server)
      → find_session (end_session heap id sn s).0 j ≡ some p
      → (find_session s j ≡ some p) × (id ≢ j)
  unfolding end_session
  end-removes_session id sn j p s e =
      let t = drop_session id s in
      (
        ground (arith, find_session-drop_device t sn j, find_session-drop s id j),
        ground (arith, find_session-drop_device t sn j, find_session-drop s id j),
      )

  end-unbinds :
      (id sn c : ℕ) (s : Server)
      → (heap c).session_id ≡ id
      → find_device (end_session heap id sn s).0 sn ≢ some (some c)
  unfolding end_session
  end-unbinds id sn c s own e =
      let t = drop_session id s in
      ground (arith, find_device-drop t sn sn, find_device-drop_session s id sn)

  abbrev emptied : List (ℕ × ℕ) → Server → Server
  emptied q s = record s { cleanup_sessions = q }

  find_device-emptied :
      (q : List (ℕ × ℕ)) (s : Server) (j : ℕ) → find_device (emptied q s) j ≡ find_device s j
  unfolding find_device
  find_device-emptied q s j = refl

  find_session-emptied :
      (q : List (ℕ × ℕ)) (s : Server) (j : ℕ) → find_session (emptied q s) j ≡ find_session s j
  unfolding find_session
  find_session-emptied q s j = refl

  pub drain-removes_device :
      (q : List (ℕ × ℕ)) (j : ℕ) (p : Pointer) (s : Server)
      → find_device (drain_queue heap q s) j ≡ some p
      → find_device s j ≡ some p
  unfolding drain_queue find_device-emptied
  drain-removes_device [] j p s e = ground (arith, find_device-emptied [] s j)
  drain-removes_device ((id, sn) ∷ q) j p s e = ground (
    arith,
    find_device-emptied q s j,
    end-removes_device id sn j p (emptied q s) (drain-removes_device q j p _ e),
  )

  pub drain-unbinds :
      (q : List (ℕ × ℕ)) (id sn c : ℕ) (s : Server)
      → Queued id sn q
      → (heap c).session_id ≡ id
      → find_device (drain_queue heap q s) sn ≢ some (some c)
  unfolding drain_queue
  drain-unbinds [] id sn c s h own e = absurd h
  drain-unbinds ((a, b) ∷ q) id sn c s (inl (p, r)) own e =
      end-unbinds a b c (emptied q s) (ground arith)
        (ground (arith, drain-removes_device q sn (some c) _ e))
  drain-unbinds ((a, b) ∷ q) id sn c s (inr h) own e = drain-unbinds q id sn c _ h own e

  pub drain-removes_session :
      (q : List (ℕ × ℕ)) (j : ℕ) (p : Pointer) (s : Server)
      → find_session (drain_queue heap q s) j ≡ some p
      → find_session s j ≡ some p
  unfolding drain_queue
  drain-removes_session [] j p s e = ground (arith, find_session-emptied [] s j)
  drain-removes_session ((id, sn) ∷ q) j p s e = ground (
    arith,
    find_session-emptied q s j,
    (end-removes_session id sn j p (emptied q s) (drain-removes_session q j p _ e)).0,
  )

  pub drain-ends :
      (q : List (ℕ × ℕ)) (id sn : ℕ) (p : Pointer) (s : Server)
      → Queued id sn q
      → find_session (drain_queue heap q s) id ≢ some p
  unfolding drain_queue
  drain-ends [] id sn p s h e = absurd h
  drain-ends ((a, b) ∷ q) id sn p s (inl (l, r)) e =
      (end-removes_session a b id p (emptied q s) (drain-removes_session q id p _ e)).1 l
  drain-ends ((a, b) ∷ q) id sn p s (inr h) e = drain-ends q id sn p _ h e
