-- ===== src/Commands/Answer.antt =====
-- The answers of devices, CommandManager.cpp: `run` for one notification, and the functions that
-- complete a script, a telemetry request and a configuration.
use wlan_cloud_ucentralgw.Base.{
  ℕ, Bool, true, false, ◌&&◌, not, Option, none, some, List, [], ◌∷◌, ◌==◌, ltb, if◌then◌else◌, any,
}
use wlan_cloud_ucentralgw.Base.Dict.{find, assign, erase}
use wlan_cloud_ucentralgw.Commands.{
  Member, missing, malformed, present, Payload, CommandInfo, is_script, is_telemetry, is_configure,
  Effect, command_completed, cancel_wait_file, rollback_configuration, complete_configuration,
  Manager, record_effect,
}

pub record Notification : Type 0 where
  pub serial_number : ℕ
  pub payload : Payload

-- A statement of the code changes the manager and may throw; what it changed before stays.
pub data Step {ℓ} (A : Type ℓ) : Type ℓ where
  ok : A → Manager → Step A
  raise : Manager → Step A

abbrev pub M {ℓ} : Type ℓ → Type ℓ
M A = Manager → Step A

infixl 5 ◌>>=◌ ◌>>◌
abbrev pub ◌>>=◌ {ℓ κ} : {A : Type ℓ} {B : Type κ} → M A → (A → M B) → M B
◌>>=◌ m f s = elim (m s) [ ok a s' ↦ f a s' | raise s' ↦ raise s' ]

abbrev pub ◌>>◌ {ℓ} : {B : Type ℓ} → M (Unit {0}) → M B → M B
m >> k = m >>= λ _. k

abbrev pub skip : M (Unit {0})
skip s = ok tt s

abbrev pub effect : Effect → M (Unit {0})
effect e s = ok tt (record_effect e s)

-- `get` throws on what is not there, and on what is of another type.
abbrev pub get {ℓ} : {A : Type ℓ} → Member A → M A
get missing s = raise s
get malformed s = raise s
get (present a) s = ok a s

abbrev pub has {ℓ} : {A : Type ℓ} → Member A → Bool
has missing = false
has malformed = true
has (present a) = true

-- `Command.State = n` on the entry of the map.
abbrev pub set_state : ℕ → CommandInfo → ℕ → M (Unit {0})
set_state id c n s =
    ok tt (record s { outstanding = assign id (record c { state = n }) s.outstanding })

abbrev pub erase_request : ℕ → M (Unit {0})
erase_request id s = ok tt (record s { outstanding = erase id s.outstanding })

-- `if (TmpRpcEntry != nullptr) TmpRpcEntry->set_value(Payload)`: a second value throws.
unfoldable pub set_value : Option ℕ → Payload → M (Unit {0})
set_value none p s = ok tt s
set_value (some entry) p s =
    if any (λ (q : ℕ × Payload). q.0 == entry) s.fulfilled
    then raise s
    else ok tt (record s { fulfilled = (entry, p) ∷ s.fulfilled })

unfoldable pub complete_telemetry_command : ℕ → CommandInfo → Payload → M (Unit {0})
complete_telemetry_command id c p = do
  effect (command_completed c.uuid)
  set_state id c 0
  erase_request c.id
  set_value c.rpc_entry p

-- The branch of `run` for every other command is the same four statements.
unfoldable pub complete_command : ℕ → CommandInfo → Payload → M (Unit {0})
complete_command id c p = do
  effect (command_completed c.uuid)
  set_state id c 0
  erase_request id
  set_value c.rpc_entry p

-- Error 2 means that the device refused the configuration.
unfoldable pub configuration_result : Payload → M (Unit {0})
configuration_result p =
    if has p.result
    then (do
      result ← get p.result
      if has result.status && has result.serial
          then (do
            status ← get result.status
            serial ← get result.serial
            error ← get status.error
            effect (
                if error == 2
                then rollback_configuration serial
                else complete_configuration serial))
          else skip)
    else skip

unfoldable pub complete_configure_command : ℕ → CommandInfo → Payload → M (Unit {0})
complete_configure_command id c p = do
  effect (command_completed c.uuid)
  configuration_result p
  set_state id c 0
  erase_request c.id
  set_value c.rpc_entry p

-- The state that a script is in after the device's word on its start (state 2) ...
unfoldable pub script_started : CommandInfo → Payload → M ℕ
script_started c p =
    if has p.result
    then (do
      result ← get p.result
      if has result.status
          then (do
            status ← get result.status
            error ← get status.error
            effect (command_completed c.uuid)
            if error == 0
                then ok 1
                else (do text ← get status.text; effect (cancel_wait_file c.uuid); ok 0))
          else ok c.state)
    else ok 0

-- ... and whether the promise gets the answer.
unfoldable pub script_state : CommandInfo → Payload → M (ℕ × Bool)
script_state c p =
    if c.state == 2
    then (do n ← script_started c p; ok (n, true))
    else if c.state == 1
    then (do effect (command_completed c.uuid); ok (0, not c.deferred))
    else ok (c.state, true)

unfoldable pub complete_script_command : ℕ → CommandInfo → Payload → M (Unit {0})
complete_script_command id c p = do
  (n, reply) ← script_state c p
  set_state id c n
  (if n == 0 then erase_request c.id else skip)
  (if reply then set_value c.rpc_entry p else skip)

unfoldable pub dispatch : ℕ → CommandInfo → Payload → M (Unit {0})
dispatch id c p =
    if is_script c.command
    then complete_script_command id c p
    else if is_telemetry c.command
    then complete_telemetry_command id c p
    else if is_configure c.command && elim c.rpc_entry [ none ↦ true | some q ↦ false ]
    then complete_configure_command id c p
    else complete_command id c p

-- The body of the loop of `run`: an answer with an id above 1 is dispatched if there is a request
-- with the id, and the answer comes from the device that was asked.
unfoldable pub process : Notification → M (Unit {0})
process n s =
    if has n.payload.id
    then (do
      id ← get n.payload.id
      if ltb 1 id
          then (λ t. elim (find id t.outstanding) [
            | none ↦ ok tt t
            | some c ↦
                if c.serial_number == n.serial_number then dispatch id c n.payload t else ok tt t
          ])
          else skip)
        s
    else ok tt s

-- The handlers behind the loop's body log what was thrown.
abbrev pub settle : Step (Unit {0}) → Manager
settle (ok a s) = s
settle (raise s) = s

unfoldable pub run : List Notification → Manager → Manager
run [] s = s
run (n ∷ ns) s = if s.running then run ns (settle (process n s)) else s
