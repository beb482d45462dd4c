-- ===== src/Tracker/Life.antt =====
-- The sessions of RADIUSSessionTracker.cpp as a partial function of the access point and the index.
use wlan_cloud_ucentralgw.Base.{
  ℕ, ◌≡◌, refl, sym, ap, ◌∙◌, ◌&&◌, ◌||◌, Option, none, some, [], ◌==◌, if◌then◌else◌, arith, inl,
  inr, Bool-cases, Option-cases,
}
use wlan_cloud_ucentralgw.Base.Table.{Text, same, same_sound, get_entry, get_entry-put_entry}
use wlan_cloud_ucentralgw.Tracker.Attributes.{Names, Fields}
use wlan_cloud_ucentralgw.Tracker.{
  RadiusSession, SessionNotification, SessionMap, Tracker, put_sessions, open_access_point,
  opened_session, new_session, updated_session,
}

unfoldable pub session_in : Option SessionMap → Text → Option RadiusSession
session_in none index = none
session_in (some m) index = get_entry index m

unfoldable pub session_of : Tracker → Text → Text → Option RadiusSession
session_of t serial index = session_in (get_entry serial t.accounting_sessions) index

-- What an accounting packet with these fields makes of its session.
unfoldable pub accounting_next :
    ℕ → Fields → SessionNotification → Option RadiusSession → Option RadiusSession
accounting_next now f n none =
    if f.status == 1 || f.status == 3 then some (new_session now f n) else none
accounting_next now f n (some s) = if f.status == 2 then none else some (updated_session now f n s)

unfoldable pub authentication_next :
    ℕ → Names → SessionNotification → Option RadiusSession → Option RadiusSession
authentication_next now names n none = some (opened_session now names [] n.secret)
authentication_next now names n (some s) = some (record s { last_transaction = now })

pub session_of-put_sessions :
    (serial j k : Text) (m : SessionMap) (t : Tracker)
    → session_of (put_sessions serial m t) j k
      ≡ (if same serial j then get_entry k m else session_of t j k)
unfolding session_of session_in
session_of-put_sessions serial j k m t =
    ap (λ o. session_in o k) (get_entry-put_entry serial j m t.accounting_sessions)
    ∙ elim (Bool-cases (same serial j)) [ inl e ↦ ground arith | inr e ↦ ground arith ]

no_device :
    (serial j k : Text) (t : Tracker)
    → get_entry serial t.accounting_sessions ≡ none
    → (if same serial j then get_entry k [] else session_of t j k) ≡ session_of t j k
unfolding session_of session_in get_entry
no_device serial j k t e = elim (Bool-cases (same serial j)) [
  | inl s ↦
      let at : get_entry j t.accounting_sessions ≡ none =
        ap (λ x. get_entry x t.accounting_sessions) (sym (same_sound serial j s)) ∙ e in
      rw (s, at, session_in) refl
  | inr s ↦ rw s refl
]

pub session_of-open :
    (serial j k : Text) (t : Tracker)
    → session_of (open_access_point serial t).0 j k ≡ session_of t j k
session_of-open serial j k t = elim (Option-cases (get_entry serial t.accounting_sessions)) [
  | inl e ↦
      let opened : (open_access_point serial t).0 ≡ put_sessions serial [] t =
        unfold open_access_point in rw (e, open_access_point) refl in
      ap (λ u. session_of u j k) opened
      ∙ session_of-put_sessions serial j k [] t
      ∙ no_device serial j k t e
  | inr (m, e) ↦ unfold open_access_point in rw (e, open_access_point) refl
]

pub get_entry-open :
    (serial k : Text) (t : Tracker)
    → get_entry k (open_access_point serial t).1 ≡ session_of t serial k
unfolding session_of session_in open_access_point get_entry
get_entry-open serial k t = elim (Option-cases (get_entry serial t.accounting_sessions)) [
  | inl e ↦ rw (e, open_access_point, session_in) refl
  | inr (m, e) ↦ rw (e, open_access_point, session_in) refl
]

-- A map that differs from the access point's in one index is put in its place.
pub put-one :
    (serial index j k : Text) (m : SessionMap) (v : Option RadiusSession) (t : Tracker)
    → let (t', old) = open_access_point serial t in
      get_entry k m ≡ (if same index k then v else get_entry k old)
      → session_of (put_sessions serial m t') j k
        ≡ (if same serial j && same index k then v else session_of t j k)
put-one serial index j k m v t e =
    session_of-put_sessions serial j k m (open_access_point serial t).0
    ∙ elim (Bool-cases (same serial j)) [
      | inl s ↦
          let p = same_sound serial j s in
          let at : session_of t serial k ≡ session_of t j k = ap (λ x. session_of t x k) p in
          ground (arith, get_entry-open serial k t)
      | inr s ↦ ground (arith, session_of-open serial j k t)
    ]
