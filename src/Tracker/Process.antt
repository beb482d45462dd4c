-- ===== src/Tracker/Process.antt =====
-- What each notification of RADIUSSessionTracker.cpp does to each session.
use wlan_cloud_ucentralgw.Base.{
  ℕ, ◌+◌, ◌≡◌, refl, sym, ap, ◌∙◌, ◌&&◌, ◌||◌, Option, none, some, List, [], ◌∷◌, ◌==◌,
  if◌then◌else◌, arith, inl, inr, Bool-cases, Option-cases, length, length-append,
}
use wlan_cloud_ucentralgw.Base.Table.{
  Text, same, same_sound, get_entry, put_entry, drop_entry, get_entry-put_entry,
  get_entry-drop_entry,
}
use wlan_cloud_ucentralgw.Tracker.Attributes.{accounting_fields, authentication_names}
use wlan_cloud_ucentralgw.Tracker.{
  RadiusSession, SessionNotification, SessionMap, Tracker, open_access_point, index_of,
  opened_session, new_session, updated_session, process_accounting, process_authentication, stops,
  disconnect_session, has_sessions,
}
use wlan_cloud_ucentralgw.Tracker.Life.{
  session_in, session_of, accounting_next, authentication_next, session_of-open, get_entry-open,
  put-one,
}

module _ (tokens : Text → List Text) (now : ℕ) (n : SessionNotification) (t : Tracker) where
  untouched :
      (index j k : Text) (v : Option RadiusSession)
      → v ≡ session_of t n.serial_number index
      → session_of (open_access_point n.serial_number t).0 j k
        ≡ (if same n.serial_number j && same index k then v else session_of t j k)
  untouched index j k v e =
      session_of-open n.serial_number j k t ∙ elim (Bool-cases (same n.serial_number j)) [
        | inl s ↦ elim (Bool-cases (same index k)) [
          | inl i ↦
              let p = same_sound n.serial_number j s in
              let q = same_sound index k i in
              let at : session_of t n.serial_number index ≡ session_of t j k =
                ap (λ x. session_of t x index) p ∙ ap (session_of t j) q in
              ground (arith, at)
          | inr i ↦ ground arith
        ]
        | inr s ↦ ground arith
      ]

  -- An accounting packet touches one session, that of its access point and of its two session ids.
  -- If there is none, a start (1) or an interim report (3) opens it and any other packet is
  -- ignored; if there is one, a stop (2) removes it and any other packet updates it. The session
  -- stays as `accounting_next` says, and every other session of every access point as it was.
  pub process_accounting_lem :
      (j k : Text)
      → let f = accounting_fields tokens n.packet in
        let index = index_of f.names in
        session_of (process_accounting tokens now n t) j k ≡ (
          if same n.serial_number j && same index k
          then accounting_next now f n (session_of t n.serial_number index)
          else session_of t j k)
  unfolding process_accounting accounting_next
  process_accounting_lem j k =
      let f = accounting_fields tokens n.packet in
      let serial = n.serial_number in
      let index = index_of f.names in
      let m = (open_access_point serial t).1 in
      let here = get_entry-open serial index t in
      elim (Option-cases (get_entry index m)) [
        | inl e ↦
            let at : session_of t serial index ≡ none = sym here ∙ e in
            elim (Bool-cases (f.status == 1 || f.status == 3)) [
              | inl b ↦
                  rw (e, at, b, process_accounting, accounting_next)
                    (put-one serial index j k (put_entry index (new_session now f n) m)
                      (some (new_session now f n)) t (get_entry-put_entry index k _ m))
              | inr b ↦
                  rw (e, at, b, process_accounting, accounting_next)
                    (untouched index j k none (sym at))
            ]
        | inr (s, e) ↦
            let at : session_of t serial index ≡ some s = sym here ∙ e in
            elim (Bool-cases (f.status == 2)) [
              | inl b ↦
                  rw (e, at, b, process_accounting, accounting_next)
                    (put-one serial index j k (drop_entry index m) none t
                      (get_entry-drop_entry index k m))
              | inr b ↦
                  rw (e, at, b, process_accounting, accounting_next)
                    (put-one serial index j k (put_entry index (updated_session now f n s) m)
                      (some (updated_session now f n s)) t (get_entry-put_entry index k _ m))
            ]
      ]

  -- An authentication packet opens the session of its access point and ids, or marks it as used
  -- now; every other session stays as it was.
  pub process_authentication_lem :
      (j k : Text)
      → let names = authentication_names tokens n.packet in
        let index = index_of names in
        session_of (process_authentication tokens now n t) j k ≡ (
          if same n.serial_number j && same index k
          then authentication_next now names n (session_of t n.serial_number index)
          else session_of t j k)
  unfolding process_authentication authentication_next
  process_authentication_lem j k =
      let names = authentication_names tokens n.packet in
      let serial = n.serial_number in
      let index = index_of names in
      let m = (open_access_point serial t).1 in
      let here = get_entry-open serial index t in
      elim (Option-cases (get_entry index m)) [
        | inl e ↦
            let at : session_of t serial index ≡ none = sym here ∙ e in
            rw (e, at, process_authentication, authentication_next)
              (put-one serial index j k (put_entry index (opened_session now names [] n.secret) m)
                (some (opened_session now names [] n.secret)) t (get_entry-put_entry index k _ m))
        | inr (s, e) ↦
            let at : session_of t serial index ≡ some s = sym here ∙ e in
            let used = record s { last_transaction = now } in
            rw (e, at, process_authentication, authentication_next)
              (put-one serial index j k (put_entry index used m) (some used) t
                (get_entry-put_entry index k _ m))
      ]

length-stops : (time : ℕ) (serial : Text) (m : SessionMap) → length (stops time serial m) ≡ length m
unfolding stops
length-stops time serial [] = refl
length-stops time serial (s ∷ m) = ground (arith, length-stops time serial m)

-- When an access point disconnects, its sessions are gone, those of all others stay, and as many
-- accounting packets are sent as it had sessions.
pub disconnect_session_lem :
    (time : ℕ) (serial : Text) (t : Tracker)
    → let u = disconnect_session time serial t in
      ((j k : Text) → session_of u j k ≡ (if same serial j then none else session_of t j k))
      × (length u.sent ≡ length t.sent + has_sessions serial t)
unfolding disconnect_session has_sessions session_of session_in
disconnect_session_lem time serial t =
    elim (Option-cases (get_entry serial t.accounting_sessions)) [
      | inl e ↦ rw (e, disconnect_session, has_sessions) (λ j k. gone j k e, omega arith)
      | inr (m, e) ↦
          rw (e, disconnect_session, has_sessions)
            (
              λ j k.
                  ap (λ o. session_in o k) (get_entry-drop_entry serial j t.accounting_sessions)
                  ∙ split j k,
              omega (arith, length-append t.sent (stops time serial m), length-stops time serial m),
            )
    ]
  where
    split :
        (j k : Text)
        → session_in (if same serial j then none else get_entry j t.accounting_sessions) k
          ≡ (if same serial j then none else session_in (get_entry j t.accounting_sessions) k)
    split j k = elim (Bool-cases (same serial j)) [ inl e ↦ rw e refl | inr e ↦ rw e refl ]

    gone :
        (j k : Text)
        → get_entry serial t.accounting_sessions ≡ none
        → session_in (get_entry j t.accounting_sessions) k
          ≡ (if same serial j then none else session_in (get_entry j t.accounting_sessions) k)
    gone j k e = elim (Bool-cases (same serial j)) [
      | inl s ↦
          let at : get_entry j t.accounting_sessions ≡ none =
            ap (λ x. get_entry x t.accounting_sessions) (sym (same_sound serial j s)) ∙ e in
          rw (s, at, session_in) refl
      | inr s ↦ rw s refl
    ]
