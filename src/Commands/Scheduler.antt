-- ===== src/Commands/Scheduler.antt =====
-- The scheduler, `CommandManager::onCommandRunnerTimer` of CommandManager.cpp.
pub mod Single
pub mod Ends
use mathlib.Core.Path.{subst}
use wlan_cloud_ucentralgw.Base.{
  ℕ, zero, suc, ◌+◌, ◌-◌, ◌%◌, ◌^◌, ◌≤◌, ◌<◌, ◌≡◌, refl, ap, sym, ◌∙◌, ◌≢◌, ◌⊎◌, Bool, true, false,
  ◌&&◌, Option, none, some, List, [], ◌∷◌, ltb, ◌==◌, if◌then◌else◌, arith, inl, inr, Bool-cases,
  Option-cases, length,
}
use wlan_cloud_ucentralgw.Base.Dict.{Dict, find, find-assign}
use wlan_cloud_ucentralgw.Commands.{
  CommandInfo, Command, Effect, set_command_timed_out, set_command_last_try, set_command_executed,
  removed_expired_commands, removed_timed_out_commands, Manager, record_effect, next_rpc_id,
  is_command_running, command_running_for_device, first_for_device, has_uuid,
}
use wlan_cloud_ucentralgw.Commands.Post.{
  Post, Posted, command_info, post_command, post_command_lem, post_command-IsValid, IsValid,
  next_rpc_id-fresh,
}

-- A command as the storage keeps it. Its serial number is none where `SerialNumberToInt` throws,
-- and `parses` says whether its details are a JSON object.
pub record Details : Type 0 where
  pub uuid : ℕ
  pub serial_number : Option ℕ
  pub command : Command
  pub submitted : ℕ
  pub parses : Bool

-- What the scheduler asks of the clocks, of the registry and of the storage. The storage answers
-- `GetReadyToExecuteCommands(offset, 200)` by what it holds at that moment.
pub record World : Type 0 where
  pub now : ℕ
  pub submit_time : ℕ
  pub connected : ℕ → Bool
  pub sends : ℕ → ℕ → Bool
  pub ready : ℕ → Manager → Option (List Details)

-- `PostCommandDisk(Next_RPC_ID(), …)`, and what the storage is told of it.
unfoldable pub post_next : World → Details → ℕ → Manager → Manager
post_next w cmd serial m =
    let (t, id) = next_rpc_id m in
    let r =
      post_command (w.sends serial id)
        (record {
          rpc_id = id;
          command = cmd.command;
          serial_number = serial;
          uuid = cmd.uuid;
          oneway_rpc = false;
          rpc = false;
          deferred = false;
          submitted = w.submit_time;
          promise = 0;
        })
        t in
    record_effect (if r.sent then set_command_executed cmd.uuid else set_command_last_try cmd.uuid)
      r.manager

unfoldable pub execute : World → Details → ℕ → Manager → Manager
execute w cmd serial m =
    if w.connected serial
    then elim (command_running_for_device serial m) [
      | some busy ↦ m
      | none ↦
          if cmd.parses
          then post_next w cmd serial m
          else record_effect (set_command_executed cmd.uuid) m
    ]
    else record_effect (set_command_last_try cmd.uuid) m

-- One command of a batch. The age is a difference of 64-bit numbers, and what is thrown marks the
-- command as executed.
unfoldable pub schedule : World → Details → Manager → Manager
schedule w cmd m =
    if is_command_running cmd.uuid m
    then m
    else if ltb m.command_time_out ((w.now + 2 ^ 64 - cmd.submitted) % 2 ^ 64)
    then record_effect (set_command_timed_out cmd.uuid) m
    else elim cmd.serial_number [
      | none ↦ record_effect (set_command_executed cmd.uuid) m
      | some serial ↦ execute w cmd serial m
    ]

unfoldable pub schedule_batch : World → List Details → Manager → Manager
schedule_batch w [] m = m
schedule_batch w (cmd ∷ cmds) m = if m.running then schedule_batch w cmds (schedule w cmd m) else m

-- `while (!Done)`, on fuel; none means that the fuel ran out.
unfoldable pub schedule_loop : World → ℕ → ℕ → Manager → Option Manager
schedule_loop w zero offset m = none
schedule_loop w (suc fuel) offset m = elim (w.ready offset m) [
  | none ↦ some m
  | some [] ↦ some m
  | some (cmd ∷ cmds) ↦
      schedule_loop w fuel (offset + length (cmd ∷ cmds)) (schedule_batch w (cmd ∷ cmds) m)
]

unfoldable pub on_command_runner_timer : World → ℕ → Manager → Option Manager
on_command_runner_timer w fuel m =
    schedule_loop w fuel 0
      (record_effect removed_timed_out_commands (record_effect removed_expired_commands m))
