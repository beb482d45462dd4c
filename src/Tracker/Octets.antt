-- ===== src/Tracker/Octets.antt =====
-- The counters `outputOctets` and `outputPackets` of the sessions of RADIUSSessionTracker.cpp, over histories of
-- notifications.
use mathlib.Core.Path.{subst}
use wlan_cloud_ucentralgw.Base.{
  ℕ, ◌≡◌, refl, sym, ap, ◌∙◌, Bool, true, false, ◌&&◌, ◌||◌, ◌⊎◌, arith, Option, none, some, List,
  [], ◌∷◌, ◌==◌, if◌then◌else◌, inl, inr, if_elim, Bool-cases,
}
use wlan_cloud_ucentralgw.Base.Table.{Text, same, same_refl}
use wlan_cloud_ucentralgw.Tracker.Attributes.{
  Names, Fields, accounting_throws, authentication_throws, accounting_fields, authentication_names,
}
use wlan_cloud_ucentralgw.Tracker.{
  RadiusSession, SessionNotification, Tracker, index_of, counted, opened_session, new_session,
  updated_session, Event, accounting_session_message, authentication_session_message, ap_disconnect,
  handle, process_accounting,
}
use wlan_cloud_ucentralgw.Tracker.Life.{session_of, accounting_next, authentication_next}
use wlan_cloud_ucentralgw.Tracker.Process.{
  process_accounting_lem, process_authentication_lem, disconnect_session_lem,
}

-- A session, if there is one, has counted no output packets.
abbrev pub IsUncounted : Option RadiusSession → Type 0
IsUncounted none = Unit {0}
IsUncounted (some s) = s.output_packets ≡ 0

-- No session has.
abbrev pub AllUncounted : Tracker → Type 0
AllUncounted t = (j k : Text) → IsUncounted (session_of t j k)

accounting_next-IsUncounted :
    (now : ℕ) (f : Fields) (n : SessionNotification) (o : Option RadiusSession)
    → IsUncounted o
    → IsUncounted (accounting_next now f n o)
unfolding accounting_next new_session updated_session counted opened_session
accounting_next-IsUncounted now f n none h = elim (Bool-cases (f.status == 1 || f.status == 3)) [
  | inl e ↦ rw e refl
  | inr e ↦ rw e tt
]
accounting_next-IsUncounted now f n (some s) h = elim (Bool-cases (f.status == 2)) [
  | inl e ↦ rw e tt
  | inr e ↦ rw e h
]

authentication_next-IsUncounted :
    (now : ℕ) (names : Names) (n : SessionNotification) (o : Option RadiusSession)
    → IsUncounted o
    → IsUncounted (authentication_next now names n o)
unfolding authentication_next opened_session
authentication_next-IsUncounted now names n none h = refl
authentication_next-IsUncounted now names n (some s) h = h

choice-IsUncounted :
    (b : Bool) (o p : Option RadiusSession)
    → IsUncounted o
    → IsUncounted p
    → IsUncounted (if b then o else p)
choice-IsUncounted true o p ho hp = ho
choice-IsUncounted false o p ho hp = hp

handle-AllUncounted :
    (tokens : Text → List Text) (now : ℕ) (e : Event) (t : Tracker)
    → AllUncounted t
    → AllUncounted (handle tokens now e t)
unfolding handle
handle-AllUncounted tokens now (accounting_session_message n) t h =
    if_elim AllUncounted (accounting_throws n.packet) (λ e. h)
      (λ e j k.
        let f = accounting_fields tokens n.packet in
        rw (process_accounting_lem tokens now n t j k) (
          choice-IsUncounted _ _ _
            (accounting_next-IsUncounted now f n _ (h n.serial_number (index_of f.names))) (h j k)))
handle-AllUncounted tokens now (authentication_session_message n) t h =
    if_elim AllUncounted (authentication_throws n.packet) (λ e. h)
      (λ e j k.
        let names = authentication_names tokens n.packet in
        rw (process_authentication_lem tokens now n t j k) (
          choice-IsUncounted _ _ _
            (authentication_next-IsUncounted now names n _ (h n.serial_number (index_of names)))
            (h j k)))
handle-AllUncounted tokens now (ap_disconnect serial) t h = λ j k.
    rw ((disconnect_session_lem now serial t).0 j k)
      (choice-IsUncounted (same serial j) none _ tt (h j k))

-- `run` over the notifications of the queue, each at the time when it is handled.
unfoldable pub handle_all : (Text → List Text) → List (ℕ × Event) → Tracker → Tracker
handle_all tokens [] t = t
handle_all tokens ((now, e) ∷ es) t = handle_all tokens es (handle tokens now e t)

handle_all-AllUncounted :
    (tokens : Text → List Text) (es : List (ℕ × Event)) (t : Tracker)
    → AllUncounted t
    → AllUncounted (handle_all tokens es t)
unfolding handle_all
handle_all-AllUncounted tokens [] t h = h
handle_all-AllUncounted tokens ((now, e) ∷ es) t h =
    handle_all-AllUncounted tokens es _ (handle-AllUncounted tokens now e t h)

-- What an accounting packet leaves in its session.
pub record IsMiscounted (f : Fields) (o : Option RadiusSession) : Type 0 where
  pub session : RadiusSession
  pub there : o ≡ some session
  pub octets : session.output_octets ≡ f.output_packets
  pub packets : session.output_packets ≡ 0
  pub input_octets : session.input_octets ≡ f.input_octets
  pub input_packets : session.input_packets ≡ f.input_packets

accounting_next-IsMiscounted :
    (now : ℕ) (f : Fields) (n : SessionNotification) (o : Option RadiusSession)
    → (f.status ≡ 1) ⊎ (f.status ≡ 3)
    → IsUncounted o
    → IsMiscounted f (accounting_next now f n o)
unfolding accounting_next new_session updated_session counted opened_session
accounting_next-IsMiscounted now f n none status h =
    let opens : (f.status == 1 || f.status == 3) ≡ true = ground (arith, status) in
    record {
      session = new_session now f n;
      there = rw opens refl;
      octets = refl;
      packets = refl;
      input_octets = refl;
      input_packets = refl;
    }
accounting_next-IsMiscounted now f n (some s) status h =
    let goes_on : (f.status == 2) ≡ false = ground (arith, status) in
    record {
      session = updated_session now f n s;
      there = rw goes_on refl;
      octets = refl;
      packets = h;
      input_octets = refl;
      input_packets = refl;
    }

-- Start from sessions that have counted no output packets, and let any notifications be handled.
-- A start (1) or an interim report (3) whose attributes can be read then leaves its session with the reported input octets and
-- packets, but with the reported number of output packets as its output octets; its own counter of
-- output packets is 0, and so is that of every other session.
pub handle_all-IsMiscounted :
    (tokens : Text → List Text) (es : List (ℕ × Event)) (t : Tracker) (now : ℕ)
    (n : SessionNotification)
    → AllUncounted t
    → let f = accounting_fields tokens n.packet in
      (f.status ≡ 1) ⊎ (f.status ≡ 3)
      → accounting_throws n.packet ≡ false
      → let u = handle tokens now (accounting_session_message n) (handle_all tokens es t) in
        IsMiscounted f (session_of u n.serial_number (index_of f.names)) × AllUncounted u
handle_all-IsMiscounted tokens es t now n h status read =
    let f = accounting_fields tokens n.packet in
    let before = handle_all tokens es t in
    let uncounted = handle_all-AllUncounted tokens es t h in
    let index = index_of f.names in
    let after = process_accounting tokens now n before in
    let handled : handle tokens now (accounting_session_message n) before ≡ after =
      unfold handle in ground (arith, read) in
    let session = ap (λ u. session_of u n.serial_number index) handled in
    let both : (same n.serial_number n.serial_number && same index index) ≡ true =
      rw (same_refl n.serial_number, same_refl index) refl in
    let this : session_of after n.serial_number index
        ≡ accounting_next now f n (session_of before n.serial_number index) =
      rw (process_accounting_lem tokens now n before n.serial_number index, both) refl in
    (
      subst (IsMiscounted f) (sym (session ∙ this))
          (accounting_next-IsMiscounted now f n _ status (uncounted n.serial_number index)),
      handle-AllUncounted tokens now (accounting_session_message n) before uncounted,
    )
