-- ===== src/Commands/Valid.antt =====
-- Every answer keeps the waiting requests valid, `run` of CommandManager.cpp.
use wlan_cloud_ucentralgw.Base.{
  ℕ, ◌≡◌, refl, ◌⊎◌, some, List, [], ◌∷◌, ◌==◌, ltb, ◌&&◌, arith, inl, inr, Bool-cases,
  Option-cases,
}
use wlan_cloud_ucentralgw.Base.Dict.{Dict, find, assign, erase, Rising, assign-Rising, erase-Rising}
use wlan_cloud_ucentralgw.Commands.{
  Member, missing, malformed, present, Payload, CommandInfo, Manager, record_effect,
}
use wlan_cloud_ucentralgw.Commands.Answer.{
  Notification, settle, set_value, dispatch, process, run, complete_telemetry_command,
  complete_command, complete_configure_command, configuration_result, complete_script_command,
  script_state, script_started,
}
use wlan_cloud_ucentralgw.Commands.Complete.{forget}
use wlan_cloud_ucentralgw.Commands.Post.{IsGood, AllGood, IsValid, assign-AllGood, erase-AllGood}

-- What can become of the requests when the request `c` under `id` is answered.
abbrev Becomes : ℕ → CommandInfo → Dict CommandInfo → Dict CommandInfo → Type 0
Becomes id c d e =
    (e ≡ d)
    ⊎ ((e ≡ erase id d)
        ⊎ ((e ≡ assign id (record c { state = 1 }) d)
            ⊎ (e ≡ assign id (record c { state = c.state }) d)))

erase-assign :
    (id : ℕ) (c : CommandInfo) (d : Dict CommandInfo) → erase id (assign id c d) ≡ erase id d
unfolding erase assign
erase-assign id c [] = ground arith
erase-assign id c ((j, e) ∷ d) = ground (arith, erase-assign id c d)

module _ (id : ℕ) (c : CommandInfo) (own : c.id ≡ id) (p : Payload) (s : Manager) where
  gone : forget id c 0 s.outstanding ≡ erase id s.outstanding
  gone = erase-assign id (record c { state = 0 }) s.outstanding

  telemetry-Becomes :
      Becomes id c s.outstanding (settle (complete_telemetry_command id c p s)).outstanding
  unfolding complete_telemetry_command record_effect set_value
  telemetry-Becomes = inr (inl (ground (arith, own, gone)))

  plain-Becomes : Becomes id c s.outstanding (settle (complete_command id c p s)).outstanding
  unfolding complete_command record_effect set_value
  plain-Becomes = inr (inl (ground (arith, gone)))

  configure-Becomes :
      Becomes id c s.outstanding (settle (complete_configure_command id c p s)).outstanding
  unfolding complete_configure_command configuration_result record_effect set_value
  configure-Becomes = ground (arith, own, gone)

  script-Becomes :
      Becomes id c s.outstanding (settle (complete_script_command id c p s)).outstanding
  unfolding complete_script_command script_state script_started record_effect set_value
  script-Becomes = ground (arith, own, gone)

  dispatch-Becomes : Becomes id c s.outstanding (settle (dispatch id c p s)).outstanding
  unfolding dispatch
  dispatch-Becomes =
      ground (arith, telemetry-Becomes, plain-Becomes, configure-Becomes, script-Becomes)

module _ (id : ℕ) (c : CommandInfo) (last : ℕ) (d : Dict CommandInfo) where
  Becomes-valid :
      (e : Dict CommandInfo)
      → IsGood last id c
      → Rising 0 d
      → AllGood last d
      → Becomes id c d e
      → Rising 0 e × AllGood last e
  Becomes-valid e g r a (inl q) = rw q (r, a)
  Becomes-valid e g r a (inr (inl q)) = rw q (erase-Rising 0 id d r, erase-AllGood last id d a)
  Becomes-valid e g r a (inr (inr (inl q))) = rw q (
    assign-Rising 0 id _ d (omega arith) r,
    assign-AllGood last id _ d (record { own = g.own; given = g.given; known = inl refl }) a,
  )
  Becomes-valid e g r a (inr (inr (inr q))) = rw q (
    assign-Rising 0 id _ d (omega arith) r,
    assign-AllGood last id _ d (record { own = g.own; given = g.given; known = g.known }) a,
  )

module _ (id : ℕ) (c : CommandInfo) (p : Payload) (s : Manager) where
  last_id-telemetry : (settle (complete_telemetry_command id c p s)).last_id ≡ s.last_id
  unfolding complete_telemetry_command record_effect set_value
  last_id-telemetry = ground arith

  last_id-plain : (settle (complete_command id c p s)).last_id ≡ s.last_id
  unfolding complete_command record_effect set_value
  last_id-plain = ground arith

  last_id-configure : (settle (complete_configure_command id c p s)).last_id ≡ s.last_id
  unfolding complete_configure_command configuration_result record_effect set_value
  last_id-configure = ground arith

  last_id-script : (settle (complete_script_command id c p s)).last_id ≡ s.last_id
  unfolding complete_script_command script_state script_started record_effect set_value
  last_id-script = ground arith

  last_id-dispatch : (settle (dispatch id c p s)).last_id ≡ s.last_id
  unfolding dispatch
  last_id-dispatch =
      ground (arith, last_id-telemetry, last_id-plain, last_id-configure, last_id-script)

dispatch-IsValid :
    (id : ℕ) (c : CommandInfo) (p : Payload) (s : Manager)
    → find id s.outstanding ≡ some c
    → IsValid s
    → IsValid (settle (dispatch id c p s))
dispatch-IsValid id c p s e v =
    let g = v.good id c e in
    let (r, a) =
      Becomes-valid id c s.last_id s.outstanding _ g v.rising v.good
        (dispatch-Becomes id c g.own p s) in
    record { rising = r; good = rw (last_id-dispatch id c p s) a }

-- An answer is dropped or dispatched to a waiting request.
process-cases :
    (n : Notification) (s : Manager)
    → (settle (process n s) ≡ s)
      ⊎ ((id : ℕ) × (c : CommandInfo) × (find id s.outstanding ≡ some c)
          × (process n s ≡ dispatch id c n.payload s))
unfolding process
process-cases n s = go n.payload.id refl
  where
    go :
        (m : Member ℕ)
        → n.payload.id ≡ m
        → (settle (process n s) ≡ s)
          ⊎ ((id : ℕ) × (c : CommandInfo) × (find id s.outstanding ≡ some c)
              × (process n s ≡ dispatch id c n.payload s))
    go missing q = inl (ground arith)
    go malformed q = inl (ground arith)
    go (present id) q = elim (Option-cases (find id s.outstanding)) [
      | inl r ↦ inl (ground arith)
      | inr (c, r) ↦ elim (Bool-cases (ltb 1 id && c.serial_number == n.serial_number)) [
        | inl t ↦ inr (id, c, r, ground arith)
        | inr t ↦ inl (ground arith)
      ]
    ]

process-IsValid : (n : Notification) (s : Manager) → IsValid s → IsValid (settle (process n s))
process-IsValid n s v = elim (process-cases n s) [
  | inl e ↦ rw e v
  | inr (id, c, e, q) ↦ rw q (dispatch-IsValid id c n.payload s e v)
]

run-step :
    (n : Notification) (ns : List Notification) (s : Manager)
    → (run (n ∷ ns) s ≡ run ns (settle (process n s))) ⊎ (run (n ∷ ns) s ≡ s)
unfolding run
run-step n ns s = elim (Bool-cases s.running) [
  | inl e ↦ inl (ground arith)
  | inr e ↦ inr (ground arith)
]

-- Whatever devices answer, the requests that wait stay valid: each under its own id, in the order
-- of the ids, with an id that was given out and a state that the code knows.
pub run-IsValid : (ns : List Notification) (s : Manager) → IsValid s → IsValid (run ns s)
run-IsValid [] s v = unfold run in v
run-IsValid (n ∷ ns) s v = elim (run-step n ns s) [
  | inl e ↦ rw e (run-IsValid ns _ (process-IsValid n s v))
  | inr e ↦ rw e v
]
