-- ===== src/Commands/Complete.antt =====
-- What an answer changes, CommandManager.cpp: the request that it answers, and no other.
use wlan_cloud_ucentralgw.Base.{
  ℕ, ◌<◌, ◌≡◌, refl, ◌≢◌, ◌⊎◌, false, Option, none, some, List, [], ◌∷◌, ◌++◌, ◌==◌, if◌then◌else◌,
  any, arith, inl, inr, Bool-cases, Option-cases,
}
use wlan_cloud_ucentralgw.Base.Dict.{Dict, find, assign, erase, find-assign, find-erase}
use wlan_cloud_ucentralgw.Commands.{
  Member, missing, malformed, present, Status, Result, Payload, CommandInfo, is_script,
  is_configure, configure, Effect, command_completed, rollback_configuration,
  complete_configuration, Manager, record_effect,
}
use wlan_cloud_ucentralgw.Commands.Answer.{
  Notification, Step, set_value, complete_telemetry_command, complete_command, configuration_result,
  complete_configure_command, script_started, script_state, complete_script_command, dispatch,
  process, settle,
}

-- The requests but for `id` stand as they did.
abbrev pub Only : ℕ → Manager → Step (Unit {0}) → Type 0
Only id s r = (j : ℕ) → id ≢ j → find j (settle r).outstanding ≡ find j s.outstanding

set_value-outstanding :
    (entry : Option ℕ) (p : Payload) (s : Manager)
    → (settle (set_value entry p s)).outstanding ≡ s.outstanding
unfolding set_value
set_value-outstanding none p s = refl
set_value-outstanding (some entry) p s =
    elim (Bool-cases (any (λ (q : ℕ × Payload). q.0 == entry) s.fulfilled)) [
      | inl e ↦ rw e refl
      | inr e ↦ rw e refl
    ]

-- `Command.State = n; OutStandingRequests_.erase(id)`.
abbrev pub forget : ℕ → CommandInfo → ℕ → Dict CommandInfo → Dict CommandInfo
forget id c n d = erase id (assign id (record c { state = n }) d)

pub find-forget :
    (id : ℕ) (c : CommandInfo) (n j : ℕ) (d : Dict CommandInfo)
    → find j (forget id c n d) ≡ (if id == j then none else find j d)
find-forget id c n j d = ground (
  arith,
  find-erase id j (assign id (record c { state = n }) d),
  find-assign id j (record c { state = n }) d,
)

module _ (id : ℕ) (c : CommandInfo) (own : c.id ≡ id) (s : Manager) where
  telemetry-Only : (p : Payload) → Only id s (complete_telemetry_command id c p s)
  unfolding complete_telemetry_command record_effect
  telemetry-Only p j h =
      rw (set_value-outstanding c.rpc_entry p _)
        (ground (arith, own, find-forget id c 0 j s.outstanding))

  plain-Only : (p : Payload) → Only id s (complete_command id c p s)
  unfolding complete_command record_effect
  plain-Only p j h =
      rw (set_value-outstanding c.rpc_entry p _)
        (ground (arith, find-forget id c 0 j s.outstanding))

  configure-Only : (p : Payload) → Only id s (complete_configure_command id c p s)
  unfolding complete_configure_command configuration_result record_effect set_value
  configure-Only p j h = ground (arith, own, find-forget id c 0 j s.outstanding)

  script-Only : (p : Payload) → Only id s (complete_script_command id c p s)
  unfolding complete_script_command script_state script_started record_effect set_value
  script-Only p j h = ground (
    arith,
    own,
    find-forget id c 0 j s.outstanding,
    find-assign id j (record c { state = 1 }) s.outstanding,
    find-assign id j (record c { state = c.state }) s.outstanding,
  )

  dispatch-Only : (p : Payload) → Only id s (dispatch id c p s)
  unfolding dispatch
  dispatch-Only p j h =
      ground
        (arith, telemetry-Only p j h, plain-Only p j h, configure-Only p j h, script-Only p j h)

-- Requests are kept under their ids.
abbrev pub OwnIds : Dict CommandInfo → Type 0
OwnIds d = (id : ℕ) (c : CommandInfo) → find id d ≡ some c → c.id ≡ id

-- The answer of a device, whatever it holds and whatever it makes the handlers throw, changes no
-- request that was sent to another device.
pub process-isolated :
    (n : Notification) (s : Manager)
    → OwnIds s.outstanding
    → (j : ℕ) (d : CommandInfo) → find j s.outstanding ≡ some d
    → d.serial_number ≢ n.serial_number
    → find j (settle (process n s)).outstanding ≡ some d
unfolding process
process-isolated n s own j d e other = go n.payload.id refl
  where
    go : (m : Member ℕ) → n.payload.id ≡ m → find j (settle (process n s)).outstanding ≡ some d
    go missing q = ground arith
    go malformed q = ground arith
    go (present id) q = elim (Option-cases (find id s.outstanding)) [
      | inl r ↦ ground arith
      | inr (c, r) ↦ ground (arith, dispatch-Only id c (own id c r) s n.payload j)
    ]

-- An answer that no waiting request fits, by its id and by the device that sent it, changes nothing.
pub process-ignored :
    (n : Notification) (s : Manager)
    → ((id : ℕ) (c : CommandInfo)
        → n.payload.id ≡ present id
        → 1 < id
        → find id s.outstanding ≡ some c
        → c.serial_number ≢ n.serial_number)
    → settle (process n s) ≡ s
unfolding process
process-ignored n s other = go n.payload.id refl
  where
    go : (m : Member ℕ) → n.payload.id ≡ m → settle (process n s) ≡ s
    go missing q = ground arith
    go malformed q = ground arith
    go (present id) q = elim (Option-cases (find id s.outstanding)) [
      | inl r ↦ ground arith
      | inr (c, r) ↦ ground (arith, other id c)
    ]

-- The answer `n` is to the request `c` under `id`.
pub record Answers (n : Notification) (s : Manager) (id : ℕ) (c : CommandInfo) : Type 0 where
  pub asked : n.payload.id ≡ present id
  pub legal : 1 < id
  pub waiting : find id s.outstanding ≡ some c
  pub sender : c.serial_number ≡ n.serial_number
  pub own : c.id ≡ id

pub process-dispatch :
    (n : Notification) (s : Manager) (id : ℕ) (c : CommandInfo)
    → Answers n s id c
    → process n s ≡ dispatch id c n.payload s
unfolding process
process-dispatch n s id c a = ground arith

configure-dispatch :
    (id : ℕ) (c : CommandInfo) (p : Payload) (s : Manager)
    → c.command ≡ configure
    → c.rpc_entry ≡ none
    → dispatch id c p s ≡ complete_configure_command id c p s
unfolding dispatch
configure-dispatch id c p s k e = rw (k, e, dispatch) refl

-- The promises and their answers after `rpc_entry` got one.
abbrev pub fulfil : Option ℕ → Payload → List (ℕ × Payload) → List (ℕ × Payload)
fulfil none p f = f
fulfil (some entry) p f = if any (λ (q : ℕ × Payload). q.0 == entry) f then f else (entry, p) ∷ f

-- Let the request be neither a script nor a configuration that nobody waits for. Its first answer
-- is recorded as the command's completion, takes the request away and no other, and is what the
-- waiting promise gets, unless it has a value.
pub process-completes :
    (n : Notification) (s : Manager) (id : ℕ) (c : CommandInfo)
    → Answers n s id c
    → is_script c.command ≡ false
    → (is_configure c.command ≡ false) ⊎ (c.rpc_entry ≢ none)
    → let t = settle (process n s) in
      ((j : ℕ) → find j t.outstanding ≡ (if id == j then none else find j s.outstanding))
      × (t.log ≡ s.log ++ (command_completed c.uuid ∷ []))
      × (t.fulfilled ≡ fulfil c.rpc_entry n.payload s.fulfilled)
unfolding dispatch complete_telemetry_command complete_command record_effect set_value
process-completes n s id c a plain waits = rw (process-dispatch n s id c a) (
  λ j. ground (arith, a.own, find-forget id c 0 j s.outstanding),
  ground (arith, a.own),
  ground (arith, a.own),
)

-- What the storage is told of a configuration after an answer with this error and serial number.
abbrev pub verdict : ℕ → ℕ → Effect
verdict error serial =
    if error == 2 then rollback_configuration serial else complete_configuration serial

-- Let nobody wait for the configuration, and let the answer have a readable status and serial
-- number. Then the command is recorded as completed, the pending change is rolled back on error 2
-- and made final on every other, and the request is gone.
pub process_configure :
    (n : Notification) (s : Manager) (id : ℕ) (c : CommandInfo) (r : Result) (st : Status)
    (error serial : ℕ)
    → Answers n s id c
    → c.command ≡ configure
    → c.rpc_entry ≡ none
    → n.payload.result ≡ present r
    → r.status ≡ present st
    → r.serial ≡ present serial
    → st.error ≡ present error
    → let t = settle (process n s) in
      ((j : ℕ) → find j t.outstanding ≡ (if id == j then none else find j s.outstanding))
      × (t.log ≡ (s.log ++ (command_completed c.uuid ∷ [])) ++ (verdict error serial ∷ []))
unfolding complete_configure_command configuration_result record_effect set_value
process_configure n s id c r st error serial a k e p q u v =
    rw (process-dispatch n s id c a, configure-dispatch id c n.payload s k e)
      (λ j. ground (arith, a.own, find-forget id c 0 j s.outstanding), ground (arith, a.own))

-- If the status has no readable error, the handler throws before it comes to the erasure: the
-- completion is recorded, and the request stays, in its old state, so that its device counts as
-- busy until the janitor comes.
pub process_configure_malformed :
    (n : Notification) (s : Manager) (id : ℕ) (c : CommandInfo) (r : Result) (st : Status)
    → Answers n s id c
    → c.command ≡ configure
    → c.rpc_entry ≡ none
    → n.payload.result ≡ present r
    → r.status ≡ present st
    → r.serial ≢ missing
    → (st.error ≡ missing) ⊎ (st.error ≡ malformed)
    → let t = settle (process n s) in
      (t.outstanding ≡ s.outstanding) × (t.log ≡ s.log ++ (command_completed c.uuid ∷ []))
unfolding complete_configure_command configuration_result record_effect
process_configure_malformed n s id c r st a k e p q u v =
    rw (process-dispatch n s id c a, configure-dispatch id c n.payload s k e)
      (ground (arith, a.own), ground (arith, a.own))
