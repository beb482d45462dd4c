-- ===== src/Sessions/Refines.antt =====
-- The sharded registry of AP_WS_Server.cpp implements the two partial functions of Spec.
use wlan_cloud_ucentralgw.Base.{
  ℕ, ◌≡◌, refl, ap, ◌∙◌, none, some, List, [], ◌∷◌, arith, inl, inr, Option-cases,
}
use wlan_cloud_ucentralgw.Sessions.{
  Server, Heap, find_session, find_device, add_connection, start_session, end_session, disconnect,
  drop_session, drop_device,
}
use wlan_cloud_ucentralgw.Sessions.Lookup.{
  find_session-put, find_session-drop, find_device-put, find_device-drop, find_device-put_session,
  find_device-drop_session, find_session-put_device, find_session-drop_device,
}
use wlan_cloud_ucentralgw.Sessions.Spec.{
  View, view, Call, adds, starts, ends, disconnects, step, spec_step, run, spec_run,
}

View-path :
    (v w : View)
    → ((k : ℕ) → v.session k ≡ w.session k)
    → ((k : ℕ) → v.device k ≡ w.device k)
    → v ≡ w
View-path v w f g = λ i. record { session = λ k. f k i; device = λ k. g k i }

module _ (heap : Heap) (s : Server) where
  add-refines : (c : ℕ) → view (add_connection heap c s) ≡ spec_step heap (adds c) (view s)
  unfolding add_connection spec_step
  add-refines c =
      let id = (heap c).session_id in
      View-path _ _ (λ k. ground (arith, find_session-put s id k (some c)))
        (λ k. ground (arith, find_device-put_session s id k (some c)))

  start-refines :
      (id sn : ℕ) → view (start_session id sn s) ≡ spec_step heap (starts id sn) (view s)
  unfolding start_session spec_step
  start-refines id sn = elim (Option-cases (find_session s id)) [
    | inl e ↦ View-path _ _ (λ k. ground arith) (λ k. ground arith)
    | inr (p, e) ↦
        let t = drop_session id s in
        View-path _ _
          (λ k. ground (arith, find_session-put_device t sn k p, find_session-drop s id k))
          (λ k. ground (arith, find_device-put t sn k p, find_device-drop_session s id k))
  ]

  end-refines :
      (id sn : ℕ) → view (end_session heap id sn s).0 ≡ spec_step heap (ends id sn) (view s)
  unfolding end_session spec_step
  end-refines id sn =
      let t = drop_session id s in
      View-path _ _ (λ k. ground (arith, find_session-drop_device t sn k, find_session-drop s id k))
        (λ k. ground (
          arith,
          find_device-drop t sn k,
          find_device-drop_session s id k,
          find_device-drop_session s id sn,
        ))

  disconnect-refines :
      (sn : ℕ) → view (disconnect heap sn s).0 ≡ spec_step heap (disconnects sn) (view s)
  unfolding disconnect spec_step
  disconnect-refines sn = elim (Option-cases (find_device s sn)) [
    | inl e ↦ View-path _ _ (λ k. ground arith) (λ k. ground arith)
    | inr (none, e) ↦ View-path _ _ (λ k. ground arith) (λ k. ground arith)
    | inr (some c, e) ↦
        let id = (heap c).session_id in
        let t = drop_device sn s in
        View-path _ _
          (λ k. ground (arith, find_session-drop t id k, find_session-drop_device s sn k))
          (λ k. ground (arith, find_device-drop_session t id k, find_device-drop s sn k))
  ]

pub step-refines :
    (heap : Heap) (c : Call) (s : Server) → view (step heap c s) ≡ spec_step heap c (view s)
unfolding step
step-refines heap (adds c) s = add-refines heap s c
step-refines heap (starts id sn) s = start-refines heap s id sn
step-refines heap (ends id sn) s = end-refines heap s id sn
step-refines heap (disconnects sn) s = disconnect-refines heap s sn

-- Every history of AddConnection, StartSession, EndSession and Disconnect calls answers each lookup
-- by session id and by serial number as two partial functions would: the 256 shards and their
-- hashes cannot be seen.
pub run-refines :
    (heap : Heap) (cs : List Call) (s : Server) → view (run heap cs s) ≡ spec_run heap cs (view s)
unfolding run spec_run
run-refines heap [] s = refl
run-refines heap (c ∷ cs) s =
    run-refines heap cs (step heap c s) ∙ ap (spec_run heap cs) (step-refines heap c s)
