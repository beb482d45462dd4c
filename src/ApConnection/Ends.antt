-- ===== src/ApConnection/Ends.antt =====
-- The life of a connection of a device as a sequence of readings and ends, AP_WS_Connection.cpp.
use wlan_cloud_ucentralgw.Base.{
  ℕ, ◌≡◌, refl, ap, ◌∙◌, Bool, true, false, List, [], ◌∷◌, ◌⊎◌, inl, inr, arith, if_elim, All,
}
use wlan_cloud_ucentralgw.Base.Table.{Text}
use wlan_cloud_ucentralgw.ApConnection.Link.{ApConnection, World, end_connection, Peer, certified}
use wlan_cloud_ucentralgw.ApConnection.Frames.{Document, Received, on_socket_readable}
use wlan_cloud_ucentralgw.ApConnection.Kept.{IsEnded, IsKept-refl, end_connection-IsKept}
use wlan_cloud_ucentralgw.ApConnection.Admitted.{
  IsAdmitted, IsSound, Shows, IsKept-IsSound, on_socket_readable-IsSound,
}

-- `OnSocketReadable`, or `OnSocketShutdown`, `OnSocketError` and the destructor, which only end it.
pub data Step : Type 0 where
  reads : World → (List ℕ → Document) → Peer → Received → Step
  ends : Step

unfoldable pub step : Step → ApConnection → ApConnection
step (reads w parse peer r) s = on_socket_readable w parse peer r s
step ends s = end_connection s

unfoldable pub run : List Step → ApConnection → ApConnection
run [] s = s
run (x ∷ steps) s = run steps (step x s)

-- The setting that lets simulated devices in stays the same.
abbrev pub SameSim : Bool → Step → Type 0
SameSim sim (reads w parse peer r) = w.sim_enabled ≡ sim
SameSim sim ends = Unit {0}

-- A connection that has just been made.
pub record IsFresh (s : ApConnection) : Type 0 where
  pub alive : s.dead ≡ false
  pub no_cleanups : s.cleanups ≡ []
  pub not_validated : s.device_validated ≡ false

fresh-IsSound :
    {Shown : Text → Type 0} {sim : Bool} {s : ApConnection} → IsFresh s → IsSound Shown sim s
fresh-IsSound f = record {
  ended = rw (f.no_cleanups, f.alive) refl;
  admitted = λ h. absurd (ground (arith, f.not_validated, h));
}

-- The valid certificates of the readings have names of which `Shown` holds.
abbrev StepShows : (Text → Type 0) → Step → Type 0
StepShows Shown (reads w parse peer r) = Shows Shown w peer
StepShows Shown ends = Unit {0}

run-IsSound :
    (Shown : Text → Type 0) (sim : Bool) (steps : List Step) (s : ApConnection)
    → All (SameSim sim) steps
    → All (StepShows Shown) steps
    → IsSound Shown sim s
    → IsSound Shown sim (run steps s)
unfolding run step
run-IsSound Shown sim [] s h k v = v
run-IsSound Shown sim (reads w parse peer r ∷ steps) s h k v =
    run-IsSound Shown sim steps (on_socket_readable w parse peer r s) h.1 k.1
      (on_socket_readable-IsSound Shown sim w h.0 parse peer r s v k.0).0
run-IsSound Shown sim (ends ∷ steps) s h k v =
    run-IsSound Shown sim steps (end_connection s) h.1 k.1
      (IsKept-IsSound (end_connection-IsKept (IsKept-refl s)) v)

-- In one of the readings the peer has shown a certificate that was found valid, for the name `cn`.
abbrev pub HasShown : List Step → Text → Type 0
HasShown [] cn = ⊥
HasShown (reads w parse peer r ∷ steps) cn =
    ((name : Text) × (expiry : ℕ) × (peer ≡ certified true name expiry) × (w.normal name ≡ cn))
    ⊎ HasShown steps cn
HasShown (ends ∷ steps) cn = HasShown steps cn

steps-StepShows :
    (Shown : Text → Type 0) (steps : List Step)
    → ((cn : Text) → HasShown steps cn → Shown cn)
    → All (StepShows Shown) steps
steps-StepShows Shown [] h = tt
steps-StepShows Shown (reads w parse peer r ∷ steps) h = (
  λ name expiry e. h (w.normal name) (inl (name, expiry, e, refl)),
  steps-StepShows Shown steps (λ cn k. h cn (inr k)),
)
steps-StepShows Shown (ends ∷ steps) h = (tt, steps-StepShows Shown steps h)

step-dead : (x : Step) (s : ApConnection) → s.dead ≡ true → step x s ≡ s
unfolding step on_socket_readable end_connection
step-dead (reads w parse peer r) s q =
    if_elim (λ t. t ≡ s) s.dead (λ h. refl) (λ h. absurd (ground (arith, q, h)))
step-dead ends s q = if_elim (λ t. t ≡ s) s.dead (λ h. refl) (λ h. absurd (ground (arith, q, h)))

run-dead : (steps : List Step) (s : ApConnection) → s.dead ≡ true → run steps s ≡ s
unfolding run
run-dead [] s q = refl
run-dead (x ∷ steps) s q = ap (run steps) (step-dead x s q) ∙ run-dead steps s q

-- Whatever a device sends, and however often its connection is ended: from a new connection on, the
-- connection asks for its clean-up once if it is dead and not before, and when it is dead, no later
-- frame, error or end changes it.
pub run-IsEnded :
    (sim : Bool) (steps more : List Step) (s : ApConnection)
    → All (SameSim sim) steps
    → IsFresh s
    → let t = run steps s in IsEnded t × (t.dead ≡ true → run more t ≡ t)
run-IsEnded sim steps more s h f =
    let known = steps-StepShows (λ cn. Unit {0}) steps (λ cn k. tt) in
    (
      (run-IsSound (λ cn. Unit {0}) sim steps s h known (fresh-IsSound f)).ended,
      λ q. run-dead more (run steps s) q,
    )

-- Let a new connection go through any steps and then read once more. If it is alive then, its device
-- has been validated: its common name is a serial number, and in one of these readings its peer has
-- shown a certificate for that name that was found valid; it is no simulated device unless those are
-- let in.
pub reading-IsAdmitted :
    (sim : Bool) (steps : List Step) (s : ApConnection)
    → All (SameSim sim) steps
    → IsFresh s
    → (w : World) (parse : List ℕ → Document) (peer : Peer) (r : Received) → w.sim_enabled ≡ sim
    → let t = on_socket_readable w parse peer r (run steps s) in
      t.dead ≡ false → IsAdmitted (HasShown (reads w parse peer r ∷ steps)) sim t
reading-IsAdmitted sim steps s h f w parse peer r same_sim =
    let Shown = HasShown (reads w parse peer r ∷ steps) in
    let known = steps-StepShows Shown steps (λ cn k. inr k) in
    (on_socket_readable-IsSound Shown sim w same_sim parse peer r (run steps s)
      (run-IsSound Shown sim steps s h known (fresh-IsSound f))
      (λ name expiry e. inl (name, expiry, e, refl))).1
