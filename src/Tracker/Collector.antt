-- ===== src/Tracker/Collector.antt =====
-- The garbage collection of RADIUSSessionTracker.cpp.
use wlan_cloud_ucentralgw.Base.{
  ℕ, ◌≡◌, refl, sym, ap, ◌∙◌, ◌⊎◌, true, false, Option, some, [], ◌∷◌, arith, inl, inr, Bool-cases,
}
use wlan_cloud_ucentralgw.Base.Table.{Text, Table, same, get_entry}
use wlan_cloud_ucentralgw.Tracker.{
  RadiusSession, SessionMap, Tracker, is_idle, live_sessions, live_devices, garbage_collection,
}
use wlan_cloud_ucentralgw.Tracker.Life.{session_in, session_of}

entries :
    (m : SessionMap) → (m ≡ []) ⊎ ((s : Text × RadiusSession) × (r : SessionMap) × (m ≡ s ∷ r))
entries [] = inl refl
entries (s ∷ r) = inr (s, r, refl)

get_entry-there :
    {V : Type 0} (i k : Text) (v : V) (m : Table V)
    → same i k ≡ true
    → get_entry k ((i, v) ∷ m) ≡ some v
unfolding get_entry
get_entry-there i k v m e = rw e refl

get_entry-behind :
    {V : Type 0} (i k : Text) (v : V) (m : Table V)
    → same i k ≡ false
    → get_entry k ((i, v) ∷ m) ≡ get_entry k m
unfolding get_entry
get_entry-behind i k v m e = rw e refl

module _ (now timeout : ℕ) where
  live-idle :
      (i : Text) (r : RadiusSession) (m : SessionMap)
      → is_idle now timeout r ≡ true
      → live_sessions now timeout ((i, r) ∷ m) ≡ live_sessions now timeout m
  unfolding live_sessions
  live-idle i r m e = rw e refl

  live-busy :
      (i : Text) (r : RadiusSession) (m : SessionMap)
      → is_idle now timeout r ≡ false
      → live_sessions now timeout ((i, r) ∷ m) ≡ (i, r) ∷ live_sessions now timeout m
  unfolding live_sessions
  live-busy i r m e = rw e refl

  devices-none :
      (i : Text) (m : SessionMap) (d : Table SessionMap)
      → live_sessions now timeout m ≡ []
      → live_devices now timeout ((i, m) ∷ d) ≡ live_devices now timeout d
  unfolding live_devices
  devices-none i m d e = rw (e, live_devices) refl

  devices-some :
      (i : Text) (m : SessionMap) (d : Table SessionMap) (s : Text × RadiusSession) (r : SessionMap)
      → live_sessions now timeout m ≡ s ∷ r
      → live_devices now timeout ((i, m) ∷ d)
        ≡ (i, live_sessions now timeout m) ∷ live_devices now timeout d
  unfolding live_devices
  devices-some i m d s r e = rw (e, live_devices) refl

  live_sessions-busy :
      (k : Text) (m : SessionMap) (s : RadiusSession)
      → get_entry k (live_sessions now timeout m) ≡ some s
      → is_idle now timeout s ≡ false
  live_sessions-busy k [] s e = unfold live_sessions get_entry in absurd (ground arith)
  live_sessions-busy k ((i, r) ∷ m) s e = elim (Bool-cases (is_idle now timeout r)) [
    | inl d ↦ live_sessions-busy k m s (ap (get_entry k) (sym (live-idle i r m d)) ∙ e)
    | inr d ↦
        let found = ap (get_entry k) (sym (live-busy i r m d)) ∙ e in
        elim (Bool-cases (same i k)) [
          | inl f ↦
              let here : some r ≡ some s = sym (get_entry-there i k r _ f) ∙ found in
              ground (arith, here, d)
          | inr f ↦ live_sessions-busy k m s (sym (get_entry-behind i k r _ f) ∙ found)
        ]
  ]

  live_sessions-keeps :
      (k : Text) (m : SessionMap) (s : RadiusSession)
      → get_entry k m ≡ some s
      → is_idle now timeout s ≡ false
      → get_entry k (live_sessions now timeout m) ≡ some s
  live_sessions-keeps k [] s e d = unfold live_sessions in e
  live_sessions-keeps k ((i, r) ∷ m) s e d = elim (Bool-cases (same i k)) [
    | inl f ↦
        let here : some r ≡ some s = sym (get_entry-there i k r m f) ∙ e in
        let busy : is_idle now timeout r ≡ false = ground (arith, here, d) in
        ap (get_entry k) (live-busy i r m busy) ∙ get_entry-there i k r _ f ∙ here
    | inr f ↦
        let rest = live_sessions-keeps k m s (sym (get_entry-behind i k r m f) ∙ e) d in
        elim (Bool-cases (is_idle now timeout r)) [
          | inl g ↦ ap (get_entry k) (live-idle i r m g) ∙ rest
          | inr g ↦ ap (get_entry k) (live-busy i r m g) ∙ get_entry-behind i k r _ f ∙ rest
        ]
  ]

  live_devices-busy :
      (j k : Text) (d : Table SessionMap) (s : RadiusSession)
      → session_in (get_entry j (live_devices now timeout d)) k ≡ some s
      → is_idle now timeout s ≡ false
  live_devices-busy j k [] s e = unfold live_devices get_entry session_in in absurd (ground arith)
  live_devices-busy j k ((i, m) ∷ d) s e =
      let at = λ (x : Table SessionMap). session_in (get_entry j x) k in
      elim (entries (live_sessions now timeout m)) [
        | inl p ↦ live_devices-busy j k d s (ap at (sym (devices-none i m d p)) ∙ e)
        | inr (r, more, p) ↦
            let found = ap at (sym (devices-some i m d r more p)) ∙ e in
            elim (Bool-cases (same i j)) [
              | inl f ↦ live_sessions-busy k m s (
                  unfold session_in in
                  (ap (λ o. session_in o k) (sym (get_entry-there i j _ _ f)) ∙ found))
              | inr f ↦
                  live_devices-busy j k d s
                    (ap (λ o. session_in o k) (sym (get_entry-behind i j _ _ f)) ∙ found)
            ]
      ]

  live_devices-keeps :
      (j k : Text) (d : Table SessionMap) (s : RadiusSession)
      → session_in (get_entry j d) k ≡ some s
      → is_idle now timeout s ≡ false
      → session_in (get_entry j (live_devices now timeout d)) k ≡ some s
  live_devices-keeps j k [] s e busy = unfold live_devices in e
  live_devices-keeps j k ((i, m) ∷ d) s e busy =
      let at = λ (x : Table SessionMap). session_in (get_entry j x) k in
      let read = λ (o : Option SessionMap). session_in o k in
      elim (Bool-cases (same i j)) [
        | inl f ↦
            let here : get_entry k m ≡ some s =
              unfold session_in in (ap read (sym (get_entry-there i j m d f)) ∙ e) in
            let kept = live_sessions-keeps k m s here busy in
            elim (entries (live_sessions now timeout m)) [
              | inl p ↦
                  let gone : get_entry k [] ≡ some s = ap (get_entry k) (sym p) ∙ kept in
                  absurd (unfold get_entry in ground (arith, gone))
              | inr (r, more, p) ↦
                  ap at (devices-some i m d r more p)
                  ∙ ap read (get_entry-there i j _ _ f)
                  ∙ (unfold session_in in kept)
            ]
        | inr f ↦
            let rest =
              live_devices-keeps j k d s (ap read (sym (get_entry-behind i j m d f)) ∙ e) busy in
            elim (entries (live_sessions now timeout m)) [
              | inl p ↦ ap at (devices-none i m d p) ∙ rest
              | inr (r, more, p) ↦
                  ap at (devices-some i m d r more p) ∙ ap read (get_entry-behind i j _ _ f) ∙ rest
            ]
      ]

-- After the garbage collection no session is left whose last packet lies further back than the
-- timeout.
pub garbage_collection-busy :
    (now : ℕ) (t : Tracker) (j k : Text) (s : RadiusSession)
    → session_of (garbage_collection now t) j k ≡ some s
    → is_idle now t.session_timeout s ≡ false
unfolding garbage_collection session_of
garbage_collection-busy now t j k s e =
    live_devices-busy now t.session_timeout j k t.accounting_sessions s e

-- The garbage collection keeps each session whose last packet does not lie further back than the
-- timeout, as it is.
pub garbage_collection-keeps :
    (now : ℕ) (t : Tracker) (j k : Text) (s : RadiusSession)
    → session_of t j k ≡ some s
    → is_idle now t.session_timeout s ≡ false
    → session_of (garbage_collection now t) j k ≡ some s
unfolding garbage_collection session_of
garbage_collection-keeps now t j k s e busy =
    live_devices-keeps now t.session_timeout j k t.accounting_sessions s e busy
