-- ===== src/Commands.antt =====
-- The command manager, CommandManager.h and CommandManager.cpp: the requests that wait for a
-- device's answer, the answers, the janitor and the scheduler.
-- Each critical section is one step. A UUID is only compared, a serial number is what
-- `Utils::SerialNumberToInt` makes of it, a promise is numbered by the caller, and a JSON
-- payload has the fields that the code reads. Calls of the storage service are logged.
pub mod Answer
pub mod Complete
pub mod Script
pub mod Post
pub mod Valid
pub mod Janitor
pub mod Scheduler
mod Tests
use wlan_cloud_ucentralgw.Base.{
  ℕ, suc, ◌+◌, ◌-◌, ◌%◌, ◌^◌, Bool, true, false, ◌&&◌, ◌||◌, Option, none, some, List, [], ◌∷◌,
  ◌++◌, ◌==◌, ltb, if◌then◌else◌, any,
}
use wlan_cloud_ucentralgw.Base.Dict.{Dict, find, assign, erase}

-- `APCommands::Commands`.
pub data Command : Type 0 where
  capabilities logs healthchecks statistics status rtty configure upgrade reboot factory leds
        trace :
      Command
  request wifiscan eventqueue telemetry ping script rrm certupdate transfer powercycle : Command
  fixedconfig cablediagnostics reenroll package_command unknown : Command

abbrev pub is_script : Command → Bool
is_script script = true
is_script _ = false

abbrev pub is_telemetry : Command → Bool
is_telemetry telemetry = true
is_telemetry _ = false

abbrev pub is_configure : Command → Bool
is_configure configure = true
is_configure _ = false

abbrev pub is_trace : Command → Bool
is_trace trace = true
is_trace _ = false

pub record CommandInfo : Type 0 where
  pub id : ℕ
  pub serial_number : ℕ
  pub command : Command
  pub uuid : ℕ
  pub state : ℕ
  pub submitted : ℕ
  pub rpc_entry : Option ℕ
  pub deferred : Bool

-- A member of a JSON object as the code reads it: it is not there, reading it at the type that the
-- code wants throws, or it is there.
pub data Member {ℓ} (A : Type ℓ) : Type ℓ where
  missing : Member A
  malformed : Member A
  present : A → Member A

-- `status` holds `error`, and `result`, a text that is only handed on.
pub record Status : Type 0 where
  pub error : Member ℕ
  pub text : Member ℕ

pub record Result : Type 0 where
  pub status : Member Status
  pub serial : Member ℕ

pub record Payload : Type 0 where
  pub id : Member ℕ
  pub result : Member Result

-- The calls of `StorageService()` that change the database.
pub data Effect : Type 0 where
  command_completed : ℕ → Effect
  cancel_wait_file : ℕ → Effect
  set_command_timed_out : ℕ → Effect
  set_command_last_try : ℕ → Effect
  set_command_executed : ℕ → Effect
  rollback_configuration : ℕ → Effect
  complete_configuration : ℕ → Effect
  removed_expired_commands : Effect
  removed_timed_out_commands : Effect

pub record Manager : Type 0 where
  pub outstanding : Dict CommandInfo
  pub last_id : ℕ
  pub command_time_out : ℕ
  pub running : Bool
  pub log : List Effect
  -- The promises that have their value, each with the answer that it got.
  pub fulfilled : List (ℕ × Payload)

pub record_effect : Effect → Manager → Manager
record_effect e m = record m { log = m.log ++ (e ∷ []) }

-- `Next_RPC_ID`: `++Id_`, in 64 bits.
pub next_rpc_id : Manager → Manager × ℕ
next_rpc_id m = let id = (m.last_id + 1) % 2 ^ 64 in (record m { last_id = id }, id)

pub remove_pending_command : ℕ → Manager → Manager
remove_pending_command id m = record m { outstanding = erase id m.outstanding }

-- `IsCommandRunning`.
unfoldable pub has_uuid : ℕ → Dict CommandInfo → Bool
has_uuid uuid [] = false
has_uuid uuid ((id, c) ∷ d) = c.uuid == uuid || has_uuid uuid d

pub is_command_running : ℕ → Manager → Bool
unfolding has_uuid
is_command_running uuid m = has_uuid uuid m.outstanding

-- `CommandRunningForDevice`: the first request, in the order of the ids, that the device works on.
unfoldable pub first_for_device : ℕ → Dict CommandInfo → Option (ℕ × Command)
first_for_device serial [] = none
first_for_device serial ((id, c) ∷ d) =
    if c.serial_number == serial then some (c.uuid, c.command) else first_for_device serial d

pub command_running_for_device : ℕ → Manager → Option (ℕ × Command)
unfolding first_for_device
command_running_for_device serial m = first_for_device serial m.outstanding

unfoldable pub without_device : ℕ → Dict CommandInfo → Dict CommandInfo
without_device serial [] = []
without_device serial ((id, c) ∷ d) =
    let rest = without_device serial d in if c.serial_number == serial then rest else (id, c) ∷ rest

pub clear_queue : ℕ → Manager → Manager
unfolding without_device
clear_queue serial m = record m { outstanding = without_device serial m.outstanding }

-- `RemoveCommand` erases the first request with the UUID, and only that.
unfoldable pub without_uuid : ℕ → Dict CommandInfo → Dict CommandInfo
without_uuid uuid [] = []
without_uuid uuid ((id, c) ∷ d) = if c.uuid == uuid then d else (id, c) ∷ without_uuid uuid d

pub remove_command : ℕ → Manager → Manager
unfolding without_uuid
remove_command uuid m = record m { outstanding = without_uuid uuid m.outstanding }
